-- ===== src/Runtime/Monad.antt =====
-- Coroutines as functions of the world: state that outlives an exception, `raise`, `try`, and the
-- awaited calls.
use notification_service_kaf.Prelude.{true, ◌≡◌, ℕ, suc, ◌+◌, Option, none, some, if◌then◌else◌}
use notification_service_kaf.Runtime.{
  Exc, is_exception, World, Worker, Service, timer, Outcome, done, refused, lost,
}

pub data Result {ℓ} (A : Type ℓ) : Type ℓ where
  ok : A → Result A
  raised : Exc → Result A

abbrev pub Action : Type 0 → Type 0
Action A = World → Result A × World

abbrev pub Nothing : Type 0
Nothing = Unit

-- The exception, if any, is one that `except Exception` catches.
abbrev pub IsUncancelled : {A : Type 0} → Result A → Type 0
IsUncancelled (ok a) = Unit {0}
IsUncancelled (raised e) = is_exception e ≡ true

module _ {A : Type 0} where
  abbrev pub pure : A → Action A
  pure a w = (ok a, w)

  abbrev pub raise : Exc → Action A
  raise e w = (raised e, w)

  abbrev pub of_result : Result A → Action A
  of_result r w = (r, w)

  abbrev pub or_raise : Option A → Exc → Action A
  or_raise none e = raise e
  or_raise (some a) e = pure a

  -- Reads the state, with no await.
  abbrev pub gets : (World → A) → Action A
  gets f w = (ok (f w), w)

-- What follows a coroutine that has ended.
unfoldable pub continue : {A B : Type 0} → (A → Action B) → Result A × World → Result B × World
continue f (ok a, w) = f a w
continue f (raised e, w) = (raised e, w)

infixl 5 ◌>>=◌ ◌>>◌
abbrev pub ◌>>=◌ : {A B : Type 0} → Action A → (A → Action B) → Action B
◌>>=◌ m f w = continue f (m w)

abbrev pub ◌>>◌ : {A B : Type 0} → Action A → Action B → Action B
m >> k = m >>= λ _. k

unfoldable pub recover : {A : Type 0} → (Exc → Action A) → Result A × World → Result A × World
recover h (ok a, w) = (ok a, w)
recover h (raised e, w) = if is_exception e then h e w else (raised e, w)

-- try: m except Exception as e: h e
abbrev pub catch : {A : Type 0} → Action A → (Exc → Action A) → Action A
catch m h w = recover h (m w)

-- An awaited call: time passes, whatever its outcome.
abbrev pub tick : Worker → World → World
tick k w = record w { clock = w.clock + k.env.elapse w.calls; calls = suc w.calls }

abbrev pub finish : Outcome → World → World → Result Nothing × World
finish done w w' = (ok tt, w')
finish (refused e) w w' = (raised e, w)
finish (lost e) w w' = (raised e, w')

-- A call of a service that changes the world by `effect`.
unfoldable pub call : Worker → Service → (World → World) → Action Nothing
call k s effect w = finish (k.env.outcome s w.calls) (tick k w) (effect (tick k w))

-- A call that changes the world and returns a value.
abbrev pub answer : {A : Type 0} → Outcome → World → A × World → Result A × World
answer done w (a, w') = (ok a, w')
answer (refused e) w (a, w') = (raised e, w)
answer (lost e) w (a, w') = (raised e, w')

unfoldable pub ask : {A : Type 0} → Worker → Service → (World → A × World) → Action A
ask k s effect w = answer (k.env.outcome s w.calls) (tick k w) (effect (tick k w))

-- asyncio.sleep, in microseconds.
unfoldable pub sleep : Worker → ℕ → Action Nothing
sleep k delay = call k timer (λ w. record w { clock = w.clock + delay })

-- What an exception of the `finally` block does to a result: it takes its place.
abbrev pub overridden : {A : Type 0} → Result A → Result Nothing × World → Result A × World
overridden r (ok x, w) = (r, w)
overridden r (raised e, w) = (raised e, w)

abbrev pub finally_do : {A : Type 0} → Action Nothing → Result A × World → Result A × World
finally_do cleanup (r, w) = overridden r (cleanup w)

-- try: m finally: cleanup
abbrev pub ensure : {A : Type 0} → Action A → Action Nothing → Action A
ensure m cleanup w = finally_do cleanup (m w)
