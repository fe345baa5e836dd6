-- ===== src/Worker/Retry.antt =====
-- worker/processor/retry_engine.py.
pub mod Delay
pub mod Loop
use notification_service_kaf.Prelude.{
  ℕ, zero, suc, ◌-◌, String, List, [], ◌∷◌, Option, none, some, Bool, true, false, leb, length,
  get_elem?, if◌then◌else◌, min, max,
}
use notification_service_kaf.Schemas.{NotificationJob}
use notification_service_kaf.Runtime.{Exc, exc_text, Worker}
use notification_service_kaf.Runtime.Monad.{Action, Nothing, pure, ◌>>=◌, ◌>>◌, catch, sleep}
use notification_service_kaf.Worker.Dlq.{publish_job}
use notification_service_kaf.Worker.Status.{mark_sent, mark_failure}

-- `retry_delays[idx]`; an index past the end would be an IndexError, and never occurs (Retry/Delay).
abbrev at_index : List ℕ → ℕ → ℕ
at_index [] i = 0
at_index (d ∷ ds) zero = d
at_index (d ∷ ds) (suc i) = at_index ds i

-- `max(0, min(attempts - 1, len(retry_delays) - 1))`, over a list that is not empty.
unfoldable pub get_retry_delay : ℕ → List ℕ → ℕ
get_retry_delay attempts [] = 0
get_retry_delay attempts (d ∷ ds) =
    at_index (d ∷ ds) (max 0 (min (attempts - 1) (length (d ∷ ds) - 1)))

module _ (k : Worker) (job : NotificationJob) (max_attempts : ℕ) (retry_delays : List ℕ)
    (attempt_send_fn : NotificationJob → Action Nothing) where
  -- The body of `try`.
  abbrev pub try_send : ℕ → Action Nothing
  try_send attempts = attempt_send_fn job >> mark_sent k job attempts

  -- `if is_last: publish and return`, else sleep and go round again.
  abbrev pub after_failure : ℕ → Action Nothing → String → Bool → Action Nothing
  after_failure attempts again error true = publish_job k job (some error)
  after_failure attempts again error false =
      sleep k (get_retry_delay attempts retry_delays) >> again

  -- The body of `except`, with the rounds that follow it.
  abbrev pub on_failure : ℕ → Action Nothing → Exc → Action Nothing
  on_failure attempts again exc =
      let is_last = leb max_attempts attempts in
      do
        mark_failure k job attempts (exc_text exc) is_last
        after_failure attempts again (exc_text exc) is_last

  -- The rounds of the loop: `left` is max_attempts - attempts.
  unfoldable pub rounds : ℕ → ℕ → Action Nothing
  rounds zero attempts = pure tt
  rounds (suc left) attempts =
      catch (try_send (suc attempts)) (on_failure (suc attempts) (rounds left (suc attempts)))

  unfoldable pub attempt_with_retries : ℕ → Action Nothing
  attempt_with_retries existing_attempts =
      rounds (max_attempts - existing_attempts) existing_attempts
