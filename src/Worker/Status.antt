-- ===== src/Worker/Status.antt =====
-- worker/processor/status_writer.py.
use notification_service_kaf.Prelude.{ℕ, String, Option, none, some, Bool, true, false}
use notification_service_kaf.Text.{strip, lower}
use notification_service_kaf.Schemas.{
  NotificationStatus, sent, failed, retrying, expired, NotificationChannel, email, value,
  channel_of_text, NotificationJob,
}
use notification_service_kaf.Deliveries.{Saved}
use notification_service_kaf.Runtime.{Worker}
use notification_service_kaf.Runtime.Monad.{Action, Nothing, gets, ◌>>=◌}
use notification_service_kaf.Worker.Repo.{save_status}

-- What `getattr(job, "channel", None)` may be: None, a member of the enum, a text, or something else.
pub data RawChannel : Type 0 where
  missing other : RawChannel
  member : NotificationChannel → RawChannel
  plain : String → RawChannel

abbrev pub or_email : Option NotificationChannel → String
or_email none = value email
or_email (some c) = value c

unfoldable pub ensure_channel : RawChannel → String
ensure_channel missing = value email
ensure_channel (member c) = value c
ensure_channel (plain s) = or_email (channel_of_text (lower (strip s)))
ensure_channel other = value email

abbrev pub sent_values : NotificationJob → ℕ → ℕ → Saved
sent_values job attempts now = record {
  job_id = job.job_id;
  user_id = job.user_id;
  channel = ensure_channel (member job.channel);
  status = sent;
  attempts = attempts;
  error_code = none;
  error_message = none;
  sent_at = some now;
}

unfoldable pub mark_sent : Worker → NotificationJob → ℕ → Action Nothing
mark_sent k job attempts = do
  now ← gets (λ w. w.clock)
  save_status k (sent_values job attempts now)

abbrev pub failure_status : Bool → NotificationStatus
failure_status true = failed
failure_status false = retrying

abbrev pub unsent_values : NotificationJob → NotificationStatus → ℕ → String → Saved
unsent_values job status attempts message = record {
  job_id = job.job_id;
  user_id = job.user_id;
  channel = ensure_channel (member job.channel);
  status = status;
  attempts = attempts;
  error_code = none;
  error_message = some message;
  sent_at = none;
}

unfoldable pub mark_failure : Worker → NotificationJob → ℕ → String → Bool → Action Nothing
mark_failure k job attempts error final =
    save_status k (unsent_values job (failure_status final) attempts error)

unfoldable pub mark_expired : Worker → NotificationJob → ℕ → Action Nothing
mark_expired k job attempts =
    save_status k (unsent_values job expired attempts "Notification expired")
