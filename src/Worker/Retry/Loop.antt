-- ===== src/Worker/Retry/Loop.antt =====
-- The structural rounds are the source's `while attempts < max_attempts` loop.
use notification_service_kaf.Prelude.{
  ℕ, suc, ◌-◌, ◌≤◌, ◌<◌, ◌≡◌, List, arith, ltb, ltb→lt, ltb→ge, Bool-cases, inl, inr, if◌then◌else◌,
}
use notification_service_kaf.Schemas.{NotificationJob}
use notification_service_kaf.Runtime.{Worker}
use notification_service_kaf.Runtime.Monad.{Action, Nothing, pure, catch}
use notification_service_kaf.Worker.Retry.{rounds, attempt_with_retries, try_send, on_failure}

module _ (k : Worker) (job : NotificationJob) (max_attempts : ℕ) (delays : List ℕ)
    (fn : NotificationJob → Action Nothing) where
  -- attempt_with_retries satisfies the equation of the while loop of the source: below the maximum
  -- it makes one more attempt and a failed one goes round again; else it does nothing.
  attempt_with_retries-while :
      (n : ℕ)
      → attempt_with_retries k job max_attempts delays fn n ≡ (
          if ltb n max_attempts
          then catch (try_send k job max_attempts delays fn (suc n)) (
              on_failure k job max_attempts delays fn
                (suc n)
                (attempt_with_retries k job max_attempts delays fn (suc n)))
          else pure tt)
  unfolding attempt_with_retries rounds
  attempt_with_retries-while n = elim (Bool-cases (ltb n max_attempts)) [
    | inl e ↦
        let h : n < max_attempts = ltb→lt n max_attempts e in
        let s : max_attempts - n ≡ suc (max_attempts - suc n) = omega arith in rw (e, s)
    | inr e ↦
        let h : max_attempts ≤ n = ltb→ge n max_attempts e in
        let s : max_attempts - n ≡ 0 = omega arith in rw (e, s)
  ]
