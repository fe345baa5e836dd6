-- ===== src/Runtime/Retrying.antt =====
-- The bounded loops by which the processes wait for a service at their start: a try, an except for
-- some classes of exceptions, a pause, and another try.
use notification_service_kaf.Prelude.{ℕ, zero, suc, ◌≤◌, ◌≡◌, Bool, true, arith, if◌then◌else◌}
use notification_service_kaf.Runtime.{Exc, World}
use notification_service_kaf.Runtime.Monad.{Action, Nothing, Result, ok, raised, continue, ◌>>◌}

-- try: m except (the exceptions that `p` is true of) as e: h e
unfoldable pub recover_if :
    {A : Type 0} → (Exc → Bool) → (Exc → Action A) → Result A × World → Result A × World
recover_if p h (ok a, w) = (ok a, w)
recover_if p h (raised e, w) = if p e then h e w else (raised e, w)

module _ {A : Type 0} (retriable : Exc → Bool) (attempt : Action A) (give_up : Exc → Action A)
    (pause : Action Nothing) where
  -- The last attempt and `left` before it.
  unfoldable pub retrying : ℕ → Action A
  retrying zero w = recover_if retriable give_up (attempt w)
  retrying (suc left) w =
      let again = retrying left in recover_if retriable (λ e. pause >> again) (attempt w)

  -- A number of attempts that failed one after another, each with a pause after it.
  pub data Failures : ℕ → World → World → Type 0 where
    none_yet : (w : World) → Failures zero w w
    failed :
        (n : ℕ) (e : Exc) (w v u x : World)
        → attempt w ≡ (raised e, v)
        → retriable e ≡ true
        → pause v ≡ (ok tt, u)
        → Failures n u x
        → Failures (suc n) w x

  -- After fewer failures than attempts, a success ends the loop.
  pub retrying-first_success :
      (n left : ℕ) (w x y : World) (a : A)
      → n ≤ left
      → Failures n w x
      → attempt x ≡ (ok a, y)
      → retrying left w ≡ (ok a, y)
  unfolding retrying recover_if continue
  retrying-first_success n zero w x y a h (none_yet v) e = rw e
  retrying-first_success n (suc left) w x y a h (none_yet v) e = rw e
  retrying-first_success n zero w x y a h (failed m z u v t s p q r f) e = absurd (omega arith)
  retrying-first_success n (suc left) w x y a h (failed m z u v t s p q r f) e =
      rw (p, q, r) (retrying-first_success m left t s y a (omega arith) f e)

  -- When all attempts have failed, it is given up with the last exception.
  pub retrying-gives_up :
      (left : ℕ) (e : Exc) (w x y : World)
      → Failures left w x
      → attempt x ≡ (raised e, y)
      → retriable e ≡ true
      → retrying left w ≡ give_up e y
  unfolding retrying recover_if continue
  retrying-gives_up zero e w x y (none_yet v) p q = rw (p, q)
  retrying-gives_up (suc left) e w x y (failed m z u v t s a b c f) p q =
      rw (a, b, c) (retrying-gives_up m e t s y f p q)
