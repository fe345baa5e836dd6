-- ===== src/Runtime/Ensures.antt =====
-- What holds when a coroutine returns, whatever its calls do: the rules by which this follows for a
-- whole from its parts. Nothing is said of the runs that raise.
use notification_service_kaf.Prelude.{◌≡◌, refl, Bool, true, false, arith, if◌then◌else◌}
use notification_service_kaf.Runtime.{
  Exc, is_exception, World, Worker, Service, Outcome, done, refused, lost,
}
use notification_service_kaf.Runtime.Monad.{
  Result, ok, raised, Action, Nothing, continue, recover, tick, call, ask, finish, answer,
}

module _ {A : Type 0} (Q : A → World → Type 0) where
  -- If it returned a value, this holds of the value and the world.
  abbrev pub Ensures : Result A × World → Type 0
  Ensures (ok a, w) = Q a w
  Ensures (raised e, w) = Unit

  pub Ensures-returned : (p : Result A × World) (a : A) → Ensures p → p.0 ≡ ok a → Q a p.1
  Ensures-returned (ok b, w) a h e = ground (arith, h)
  Ensures-returned (raised x, w) a h e = absurd (cc)

  pub Ensures-if :
      (b : Bool) (w : World) (m n : Action A)
      → (b ≡ true → Ensures (m w))
      → (b ≡ false → Ensures (n w))
      → Ensures ((if b then m else n) w)
  Ensures-if true w m n h i = h refl
  Ensures-if false w m n h i = i refl

  picked :
      (b : Bool) (p q : Result A × World) → Ensures p → Ensures q → Ensures (if b then p else q)
  picked true p q h i = h
  picked false p q h i = i

  pub Ensures-recover :
      (h : Exc → Action A) (p : Result A × World)
      → Ensures p
      → ((e : Exc) → Ensures (h e p.1))
      → Ensures (recover h p)
  unfolding recover
  Ensures-recover h (ok a, w) i f = i
  Ensures-recover h (raised e, w) i f = picked (is_exception e) (h e w) (raised e, w) (f e) tt

  Ensures-answer : (o : Outcome) (w : World) (p : A × World) → Q p.0 p.1 → Ensures (answer o w p)
  Ensures-answer done w p q = q
  Ensures-answer (refused e) w p q = tt
  Ensures-answer (lost e) w p q = tt

  pub Ensures-ask :
      (k : Worker) (s : Service) (effect : World → A × World) (w : World)
      → Q (effect (tick k w)).0 (effect (tick k w)).1
      → Ensures (ask k s effect w)
  unfolding ask
  Ensures-ask k s effect w q =
      Ensures-answer (k.env.outcome s w.calls) (tick k w) (effect (tick k w)) q

module _ {A B : Type 0} (Q : A → World → Type 0) (R : B → World → Type 0) where
  pub Ensures-continue :
      (f : A → Action B) (p : Result A × World)
      → Ensures Q p
      → ((a : A) (w : World) → Q a w → Ensures R (f a w))
      → Ensures R (continue f p)
  unfolding continue
  Ensures-continue f (ok a, w) q h = h a w q
  Ensures-continue f (raised e, w) q h = tt

pub Ensures-weaken :
    {A : Type 0} (Q R : A → World → Type 0) (p : Result A × World)
    → ((a : A) (w : World) → Q a w → R a w)
    → Ensures Q p
    → Ensures R p
Ensures-weaken Q R (ok a, w) h q = h a w q
Ensures-weaken Q R (raised e, w) h q = tt

module _ (Q : Nothing → World → Type 0) where
  Ensures-finish : (o : Outcome) (w v : World) → Q tt v → Ensures Q (finish o w v)
  Ensures-finish done w v q = q
  Ensures-finish (refused e) w v q = tt
  Ensures-finish (lost e) w v q = tt

  pub Ensures-call :
      (k : Worker) (s : Service) (effect : World → World) (w : World)
      → Q tt (effect (tick k w))
      → Ensures Q (call k s effect w)
  unfolding call
  Ensures-call k s effect w q =
      Ensures-finish (k.env.outcome s w.calls) (tick k w) (effect (tick k w)) q
