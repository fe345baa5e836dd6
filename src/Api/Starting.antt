-- ===== src/Api/Starting.antt =====
-- How the start of the job publisher ends.
use notification_service_kaf.Prelude.{
  ℕ, zero, suc, ◌≡◌, refl, sym, ◌∙◌, Bool, true, false, not, ◌||◌, if◌then◌else◌,
}
use notification_service_kaf.Runtime.{World, Worker, Outcome, done, refused, lost, kafka, timer}
use notification_service_kaf.Runtime.Monad.{
  Action, Nothing, Result, ok, pure, continue, recover, tick, call, finish, sleep, ◌>>◌,
}
use notification_service_kaf.Worker.Reliable.{call-done}
use notification_service_kaf.Worker.Repo.{seconds}
use notification_service_kaf.Runtime.{IsCaught}
use notification_service_kaf.Api.Publisher.{start, start_attempts, after_failed_start, started_or}

-- It returns, and the publisher is either ready or disabled for good.
abbrev pub IsDecided : Result Nothing × World → Type 0
IsDecided p = (p.0 ≡ ok tt) × (p.1.publisher_started ≡ p.1.publisher_enabled)

module _ (k : Worker) (caught : (n : ℕ) → IsCaught (k.env.outcome kafka n))
    (awake : (n : ℕ) → k.env.outcome timer n ≡ done) where
  tried :
      (f : Bool → Action Nothing) (o : Outcome) (w : World)
      → IsCaught o
      → ((b : Bool) (v : World) → IsDecided (f b v))
      → IsDecided
          (continue f (recover (λ e. pure false) (continue (λ x. pure true) (finish o w w))))
  unfolding continue recover
  tried f done w c h = h true w
  tried f (refused e) w c h = rw c (h false w)
  tried f (lost e) w c h = rw c (h false w)

  stopped_then :
      (f : Unit → Action Nothing) (o : Outcome) (w : World)
      → IsCaught o
      → ((v : World) → IsDecided (f tt v))
      → IsDecided (continue f (recover (λ e. pure tt) (finish o w w)))
  unfolding continue recover
  stopped_then f done w c h = h w
  stopped_then f (refused e) w c h = rw c (h w)
  stopped_then f (lost e) w c h = rw c (h w)

  slept :
      (again : Action Nothing) (d : ℕ) (w : World)
      → ((v : World) → IsDecided (again v))
      → IsDecided ((sleep k d >> again) w)
  unfolding sleep continue
  slept again d w h = rw (call-done k timer _ w (awake w.calls)) (h _)

  last-IsDecided : (w : World) → IsDecided (after_failed_start k zero (pure tt) w)
  unfolding call
  last-IsDecided w =
      stopped_then _ (k.env.outcome kafka w.calls) (tick k w) (caught w.calls) λ v. (refl, refl)

  failed-IsDecided :
      (n : ℕ) (again : Action Nothing) (w : World)
      → ((v : World) → IsDecided (again v))
      → IsDecided (after_failed_start k (suc n) again w)
  unfolding call
  failed-IsDecided n again w h =
      stopped_then _ (k.env.outcome kafka w.calls) (tick k w) (caught w.calls)
        λ v. slept again (seconds 1) v h

  chosen-IsDecided :
      (otherwise : Action Nothing) (b : Bool) (w : World)
      → ((v : World) → IsDecided (otherwise v))
      → IsDecided (started_or otherwise b w)
  chosen-IsDecided otherwise true w h = (refl, refl)
  chosen-IsDecided otherwise false w h = h w

  attempts-IsDecided : (n : ℕ) (w : World) → IsDecided (start_attempts k n w)
  unfolding start_attempts call
  attempts-IsDecided zero w =
      tried _ (k.env.outcome kafka w.calls) (tick k w) (caught w.calls)
        λ b v. chosen-IsDecided _ b v last-IsDecided
  attempts-IsDecided (suc n) w =
      tried _ (k.env.outcome kafka w.calls) (tick k w) (caught w.calls)
        λ b v. chosen-IsDecided _ b v λ u. failed-IsDecided n _ u (attempts-IsDecided n)

  guarded :
      (a b : Bool) (w : World)
      → a ≡ w.publisher_started
      → b ≡ w.publisher_enabled
      → a ≡ false
      → IsDecided (if a || not b then (ok tt, w) else start_attempts k 9 w)
  guarded true b w s e f = absurd (cc)
  guarded false true w s e f = attempts-IsDecided 9 w
  guarded false false w s e f = (refl, sym s ∙ e)

  -- Where no call of Kafka is cancelled and the timers work, the start of a publisher that was not
  -- started returns without an exception, and leaves the publisher either started and enabled or
  -- not started and disabled.
  pub start-IsDecided : (w : World) → w.publisher_started ≡ false → IsDecided (start k w)
  unfolding start
  start-IsDecided w h = guarded w.publisher_started w.publisher_enabled w refl refl h
