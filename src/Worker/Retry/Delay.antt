-- ===== src/Worker/Retry/Delay.antt =====
-- The choice of a retry delay (`_get_retry_delay`).
use notification_service_kaf.Prelude.{
  ℕ, zero, suc, ◌-◌, ◌<◌, ◌≡◌, refl, ◌≢◌, List, [], ◌∷◌, some, arith, length, get_elem?, min, max,
}
use notification_service_kaf.Worker.Retry.{get_retry_delay, at_index}

at_index-get_elem? : (ds : List ℕ) (i : ℕ) → i < length ds → get_elem? ds i ≡ some (at_index ds i)
at_index-get_elem? [] i h = absurd (omega arith)
at_index-get_elem? (d ∷ ds) zero h = refl
at_index-get_elem? (d ∷ ds) (suc i) h = at_index-get_elem? ds i (omega arith)

-- Of a list of delays that is not empty, attempt n takes the n-th delay and every attempt past the
-- end the last one: the index never leaves the list.
get_retry_delay-get_elem? :
    (attempts : ℕ) (delays : List ℕ)
    → delays ≢ []
    → get_elem? delays (min (attempts - 1) (length delays - 1))
      ≡ some (get_retry_delay attempts delays)
unfolding get_retry_delay
get_retry_delay-get_elem? attempts [] h = absurd (h refl)
get_retry_delay-get_elem? attempts (d ∷ ds) h =
    let i : ℕ = min (attempts - 1) (length (d ∷ ds) - 1) in
    let e : max 0 i ≡ i = omega arith in rw e (at_index-get_elem? (d ∷ ds) i (omega arith))
