-- ===== src/Runtime/Views.antt =====
-- A part of the world that a coroutine leaves alone, or a counter that it moves by a bounded amount.
use notification_service_kaf.Prelude.{
  ℕ, ◌+◌, ◌≤◌, ◌≡◌, refl, ◌∙◌, Bool, true, false, arith, if◌then◌else◌,
}
use notification_service_kaf.Runtime.{
  Exc, World, Worker, Service, Outcome, done, refused, lost, is_exception,
}
use notification_service_kaf.Runtime.Monad.{
  Result, ok, raised, Nothing, overridden, Action, continue, recover, tick, call, ask, finish,
  answer,
}

module _ {V : Type 0} (view : World → V) where
  pub continue-view :
      {A B : Type 0} (f : A → Action B) (u : World) (p : Result A × World)
      → view p.1 ≡ view u
      → ((a : A) (w : World) → view (f a w).1 ≡ view w)
      → view (continue f p).1 ≡ view u
  unfolding continue
  continue-view f u (ok a, w) e h = h a w ∙ e
  continue-view f u (raised x, w) e h = e

  pub if-view :
      {A : Type 0} (b : Bool) (w : World) (m n : Action A)
      → view (m w).1 ≡ view w
      → view (n w).1 ≡ view w
      → view ((if b then m else n) w).1 ≡ view w
  if-view true w m n s t = s
  if-view false w m n s t = t

  picked :
      {A : Type 0} (b : Bool) (u : World) (p q : Result A × World)
      → view p.1 ≡ view u
      → view q.1 ≡ view u
      → view (if b then p else q).1 ≡ view u
  picked true u p q e f = e
  picked false u p q e f = f

  pub recover-view :
      {A : Type 0} (h : Exc → Action A) (u : World) (p : Result A × World)
      → view p.1 ≡ view u
      → ((x : Exc) (w : World) → view (h x w).1 ≡ view w)
      → view (recover h p).1 ≡ view u
  unfolding recover
  recover-view h u (ok a, w) e f = e
  recover-view h u (raised x, w) e f = picked (is_exception x) u (h x w) (raised x, w) (f x w ∙ e) e

  module _ (k : Worker) (timeless : (w : World) → view (tick k w) ≡ view w) where
    finished :
        (o : Outcome) (u w v : World)
        → view w ≡ view u
        → view v ≡ view w
        → view (finish o w v).1 ≡ view u
    finished done u w v e h = h ∙ e
    finished (refused x) u w v e h = e
    finished (lost x) u w v e h = h ∙ e

    pub call-view :
        (s : Service) (effect : World → World) (w : World)
        → ((v : World) → view (effect v) ≡ view v)
        → view (call k s effect w).1 ≡ view w
    unfolding call
    call-view s effect w h =
        finished (k.env.outcome s w.calls) w (tick k w) _ (timeless w) (h (tick k w))

    answered :
        {A : Type 0} (o : Outcome) (u w : World) (p : A × World)
        → view w ≡ view u
        → view p.1 ≡ view w
        → view (answer o w p).1 ≡ view u
    answered done u w p e h = h ∙ e
    answered (refused x) u w p e h = e
    answered (lost x) u w p e h = h ∙ e

    pub ask-view :
        {A : Type 0} (s : Service) (effect : World → A × World) (w : World)
        → ((v : World) → view (effect v).1 ≡ view v)
        → view (ask k s effect w).1 ≡ view w
    unfolding ask
    ask-view s effect w h =
        answered (k.env.outcome s w.calls) w (tick k w) (effect (tick k w)) (timeless w)
          (h (tick k w))

module _ (count : World → ℕ) where
  pub continue-adds :
      {A B : Type 0} (f : A → Action B) (p : Result A × World) (b n m : ℕ)
      → b + n ≤ m
      → count p.1 ≤ b
      → ((a : A) (w : World) → count (f a w).1 ≤ count w + n)
      → count (continue f p).1 ≤ m
  unfolding continue
  continue-adds f (ok a, w) b n m l e h = omega (arith, h a w)
  continue-adds f (raised x, w) b n m l e h = omega arith

  handled :
      {A : Type 0} (c : Bool) (p q : Result A × World) (b : ℕ)
      → count p.1 ≤ b
      → count q.1 ≤ b
      → count (if c then p else q).1 ≤ b
  handled true p q b h i = h
  handled false p q b h i = i

  pub recover-adds :
      {A : Type 0} (f : Exc → Action A) (p : Result A × World) (b n m : ℕ)
      → b + n ≤ m
      → count p.1 ≤ b
      → ((x : Exc) (w : World) → count (f x w).1 ≤ count w + n)
      → count (recover f p).1 ≤ m
  unfolding recover
  recover-adds f (ok a, w) b n m l e h = omega arith
  recover-adds f (raised x, w) b n m l e h =
      handled (is_exception x) (f x w) (raised x, w) m (omega (arith, h x w)) (omega arith)

-- The world after `finally` is the one that its block leaves.
pub overridden-world :
    {A : Type 0} (r : Result A) (c : Result Nothing × World) → (overridden r c).1 ≡ c.1
overridden-world r (ok x, w) = refl
overridden-world r (raised e, w) = refl
