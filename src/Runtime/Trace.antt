-- ===== src/Runtime/Trace.antt =====
-- The changes that a coroutine makes, as a sequence of steps of a relation: the rules by which the
-- steps of a whole follow from those of its parts.
use notification_service_kaf.Prelude.{Option, none, some, Bool, true, false, if◌then◌else◌}
use notification_service_kaf.Runtime.{
  Exc, World, Worker, Service, Outcome, done, refused, lost, is_exception,
}
use notification_service_kaf.Runtime.Monad.{
  Result, ok, raised, Action, or_raise, tick, call, ask, answer, finish, continue, recover,
}

-- Finitely many steps of `R`.
pub data Steps (R : World → World → Type 0) (u : World) : World → Type 0 where
  here : Steps R u u
  next : {v w : World} → Steps R u v → R v w → Steps R u w

pub Steps-trans :
    {R : World → World → Type 0} {u v w : World} → Steps R u v → Steps R v w → Steps R u w
Steps-trans a here = a
Steps-trans a (next b s) = next (Steps-trans a b) s

pub Steps-map :
    {R S : World → World → Type 0} {u v : World}
    → ((a b : World) → R a b → S a b)
    → Steps R u v
    → Steps S u v
Steps-map f here = here
Steps-map f (next {v = v} {w = w} a s) = next (Steps-map f a) (f v w s)

-- What every step keeps, many steps keep.
pub Steps-keep :
    {R : World → World → Type 0} (P : World → Type 0) {u v : World}
    → ((a b : World) → R a b → P a → P b)
    → Steps R u v
    → P u
    → P v
Steps-keep P keep here p = p
Steps-keep P keep (next {v = v} {w = w} a s) p = keep v w s (Steps-keep P keep a p)

module _ {R : World → World → Type 0} where
  -- The changes that `m` makes are steps of `R`, however it ends: the goals `Steps R w (m w).1`.
  pub Steps-continue :
      {A B : Type 0} (f : A → Action B) (u : World) (p : Result A × World)
      → Steps R u p.1
      → ((a : A) (w : World) → Steps R w (f a w).1)
      → Steps R u (continue f p).1
  unfolding continue
  Steps-continue f u (ok a, w) s hf = Steps-trans s (hf a w)
  Steps-continue f u (raised e, w) s hf = s

  pub Steps-if :
      {A : Type 0} (b : Bool) (w : World) (m n : Action A)
      → Steps R w (m w).1
      → Steps R w (n w).1
      → Steps R w ((if b then m else n) w).1
  Steps-if true w m n s t = s
  Steps-if false w m n s t = t

  choose :
      {A : Type 0} (b : Bool) (u : World) (p q : Result A × World)
      → Steps R u p.1
      → Steps R u q.1
      → Steps R u (if b then p else q).1
  choose true u p q s t = s
  choose false u p q s t = t

  pub Steps-recover :
      {A : Type 0} (h : Exc → Action A) (u : World) (p : Result A × World)
      → Steps R u p.1
      → ((e : Exc) (w : World) → Steps R w (h e w).1)
      → Steps R u (recover h p).1
  unfolding recover
  Steps-recover h u (ok a, w) s hh = s
  Steps-recover h u (raised e, w) s hh =
      choose (is_exception e) u (h e w) (raised e, w) (Steps-trans s (hh e w)) s

  pub Steps-or_raise :
      {A : Type 0} (o : Option A) (e : Exc) (w : World) → Steps R w (or_raise o e w).1
  Steps-or_raise none e w = here
  Steps-or_raise (some a) e w = here

  -- A call takes a step of time, and then its effect's steps.
  module _ (k : Worker) (passes : (w : World) → R w (tick k w)) where
    finished : (o : Outcome) (u w v : World) → R u w → Steps R w v → Steps R u (finish o w v).1
    finished done u w v s t = Steps-trans (next here s) t
    finished (refused e) u w v s t = next here s
    finished (lost e) u w v s t = Steps-trans (next here s) t

    pub Steps-call :
        (s : Service) (effect : World → World) (w : World)
        → Steps R (tick k w) (effect (tick k w))
        → Steps R w (call k s effect w).1
    unfolding call
    Steps-call s effect w h = finished (k.env.outcome s w.calls) w (tick k w) _ (passes w) h

    answered :
        {A : Type 0} (o : Outcome) (u w : World) (p : A × World)
        → R u w
        → Steps R w p.1
        → Steps R u (answer o w p).1
    answered done u w p s t = Steps-trans (next here s) t
    answered (refused e) u w p s t = next here s
    answered (lost e) u w p s t = Steps-trans (next here s) t

    pub Steps-ask :
        {A : Type 0} (s : Service) (effect : World → A × World) (w : World)
        → Steps R (tick k w) (effect (tick k w)).1
        → Steps R w (ask k s effect w).1
    unfolding ask
    Steps-ask s effect w h =
        answered (k.env.outcome s w.calls) w (tick k w) (effect (tick k w)) (passes w) h
