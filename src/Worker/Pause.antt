-- ===== src/Worker/Pause.antt =====
-- wait_send_after_if_needed of processor/timing.py where the timers work.
use notification_service_kaf.Prelude.{
  ℕ, ◌+◌, ◌-◌, ◌≤◌, ◌≡◌, refl, Option, none, some, Bool, true, false, arith, min, leb,
  if◌then◌else◌,
}
use notification_service_kaf.Schemas.{NotificationJob}
use notification_service_kaf.Runtime.{World, Worker}
use notification_service_kaf.Runtime.Monad.{Result, ok, Action, Nothing, continue}
use notification_service_kaf.Worker.Repo.{seconds}
use notification_service_kaf.Worker.Timing.{wait_send_after_if_needed, wait_until}
use notification_service_kaf.Worker.Reliable.{IsReliable, sleep-done}

-- The instant up to which the worker waits: send_after, but no longer than max_send_delay_seconds.
abbrev pub due : Worker → Option ℕ → ℕ → ℕ
due k none now = now
due k (some target) now = min target (now + seconds k.settings.max_send_delay_seconds)

-- Time has passed, and nothing else.
pub record IsPause (u : World) (until : ℕ) (p : Result Nothing × World) : Type 0 where
  pub after : World
  pub ended : p ≡ (ok tt, after)
  pub same_deliveries : after.deliveries ≡ u.deliveries
  pub same_dlq : after.dlq ≡ u.dlq
  pub same_sent : after.sent ≡ u.sent
  pub later : u.clock ≤ after.clock
  pub waited : until ≤ after.clock

by_test :
    (P : Result Nothing × World → Type 0) (b : Bool) (m n : Action Nothing) (u : World)
    → (b ≡ true → P (m u))
    → (b ≡ false → P (n u))
    → P ((if b then m else n) u)
by_test P true m n u p q = p refl
by_test P false m n u p q = q refl

module _ (k : Worker) (reliable : IsReliable k) where
  at_once : (u : World) (n : ℕ) → n ≤ u.clock → IsPause u n (ok tt, u)
  at_once u n h = record {
    after = u;
    ended = refl;
    same_deliveries = refl;
    same_dlq = refl;
    same_sent = refl;
    later = omega arith;
    waited = h;
  }

  wait_until-IsPause :
      (o : Option ℕ) (u : World) → IsPause u (due k o u.clock) (wait_until k o u.clock u)
  wait_until-IsPause none u = at_once u u.clock (omega arith)
  wait_until-IsPause (some target) u =
      let cap = seconds k.settings.max_send_delay_seconds in
      let delay = min (target - u.clock) cap in
      let until = due k (some target) u.clock in
      by_test (IsPause u until) (leb target u.clock) _ _ u (λ e. at_once u until (ground arith))
        (λ e.
          by_test (IsPause u until) (leb delay 0) _ _ u (λ f. at_once u until (ground arith))
            (λ f. record {
              after = _;
              ended = sleep-done k reliable delay u;
              same_deliveries = refl;
              same_dlq = refl;
              same_sent = refl;
              later = omega arith;
              waited = ground arith;
            }))

  -- Where the database, Kafka and the timers work, the wait for send_after returns and changes
  -- nothing but the time, and it ends no earlier than send_after, or than max_send_delay_seconds
  -- after its start if that is earlier.
  pub wait_send_after-IsPause :
      (job : NotificationJob) (u : World)
      → IsPause u (due k job.send_after u.clock) (wait_send_after_if_needed k job u)
  unfolding wait_send_after_if_needed continue
  wait_send_after-IsPause job u = wait_until-IsPause job.send_after u
