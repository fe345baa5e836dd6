-- ===== src/Worker/Timing.antt =====
-- worker/processor/timing.py. Instants compare alike in every time zone.
use notification_service_kaf.Prelude.{
  ℕ, ◌-◌, Option, none, some, Bool, true, false, leb, if◌then◌else◌, min,
}
use notification_service_kaf.Schemas.{NotificationDelivery, NotificationJob}
use notification_service_kaf.Runtime.{Worker}
use notification_service_kaf.Runtime.Monad.{Action, Nothing, pure, gets, ◌>>=◌, ◌>>◌, sleep}
use notification_service_kaf.Worker.Repo.{seconds}
use notification_service_kaf.Worker.Status.{mark_expired}

-- `existing.attempts if existing else 0`
abbrev pub attempts_of : Option NotificationDelivery → ℕ
attempts_of none = 0
attempts_of (some r) = r.attempts

abbrev pub expire_at :
    Worker → NotificationJob → Option NotificationDelivery → Option ℕ → ℕ → Action Bool
expire_at k job existing none now = pure false
expire_at k job existing (some expires) now =
    if leb now expires then pure false else mark_expired k job (attempts_of existing) >> pure true

unfoldable pub handle_expiration_if_needed :
    Worker → NotificationJob → Option NotificationDelivery → Action Bool
handle_expiration_if_needed k job existing = do
  now ← gets (λ w. w.clock)
  expire_at k job existing job.expires_at now

abbrev pub wait_until : Worker → Option ℕ → ℕ → Action Nothing
wait_until k none now = pure tt
wait_until k (some target) now =
    if leb target now
    then pure tt
    else let delay = min (target - now) (seconds k.settings.max_send_delay_seconds) in
      if leb delay 0 then pure tt else sleep k delay

unfoldable pub wait_send_after_if_needed : Worker → NotificationJob → Action Nothing
wait_send_after_if_needed k job = do now ← gets (λ w. w.clock); wait_until k job.send_after now
