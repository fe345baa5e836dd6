-- ===== src/Worker/Step.antt =====
-- The state changes of a worker that handles one job, as a step relation. A job's steps may be cut
-- off anywhere (a crash, a cancellation), and the steps of several workers may be interleaved.
pub mod Runs
pub mod Handle
pub mod Invariant
pub mod Channels
pub mod Counts
use notification_service_kaf.Prelude.{
  ℕ, ◌+◌, ◌≡◌, ◌≢◌, ◌≤◌, ◌<◌, String, Option, none, some, List, [], ◌∷◌,
}
use notification_service_kaf.Schemas.{
  NotificationStatus, processing, sent, failed, retrying, expired, NotificationJob,
  NotificationDelivery, NotificationChannel, value,
}
use notification_service_kaf.Deliveries.{Saved}
use notification_service_kaf.Runtime.{World, Worker, Notification, DlqMessage}
use notification_service_kaf.Runtime.Monad.{tick}
use notification_service_kaf.Worker.Repo.{try_insert, try_update, write_status}
use notification_service_kaf.Worker.Senders.{deliver}
use notification_service_kaf.Worker.Dlq.{enqueue_dlq}

-- The columns of a row that belong to its status: a claim instant exactly while PROCESSING, a sent
-- instant exactly when SENT, an error text after a failure.
abbrev pub IsConsistent : NotificationStatus → Option ℕ → Option ℕ → Option String → Type 0
IsConsistent processing started sent_at error = (started ≢ none) × (sent_at ≡ none)
IsConsistent sent started sent_at error = (started ≡ none) × (sent_at ≢ none) × (error ≡ none)
IsConsistent failed started sent_at error = (started ≡ none) × (sent_at ≡ none) × (error ≢ none)
IsConsistent retrying started sent_at error = (started ≡ none) × (sent_at ≡ none) × (error ≢ none)
IsConsistent expired started sent_at error = (started ≡ none) × (sent_at ≡ none) × (error ≢ none)

-- The text of a channel of the enum.
abbrev pub IsChannel : String → Type 0
IsChannel s = (c : NotificationChannel) × (s ≡ value c)

-- The attempts that belong to a status: at least one and at most the maximum of a SENT row, fewer of a
-- RETRYING row, and exactly the maximum of a FAILED row.
abbrev pub IsCounted : ℕ → NotificationStatus → ℕ → Type 0
IsCounted limit processing n = n ≤ limit
IsCounted limit sent n = (0 < n) × (n ≤ limit)
IsCounted limit failed n = n ≡ limit
IsCounted limit retrying n = (0 < n) × (n < limit)
IsCounted limit expired n = Unit {0}

-- What save_status is called with for a job.
pub record IsReport (k : Worker) (job : NotificationJob) (s : Saved) : Type 0 where
  pub same_job : s.job_id ≡ job.job_id
  pub consistent : IsConsistent s.status none s.sent_at s.error_message
  pub in_enum : IsChannel s.channel
  pub counted : IsCounted k.settings.max_attempts s.status s.attempts

pub data Step (k : Worker) (job : NotificationJob) : World → World → Type 0 where
  passed : (w : World) → Step k job w (tick k w)
  slept : (d : ℕ) (w : World) → Step k job w (record w { clock = w.clock + d })
  inserted :
      (channel : String) (now : ℕ) (w : World)
      → IsChannel channel
      → Step k job w (try_insert k job.job_id job.user_id channel now w).1
  updated :
      (now stale_before : ℕ) (w : World)
      → Step k job w (try_update k job.job_id now stale_before w).1
  wrote : (s : Saved) (w : World) → IsReport k job s → Step k job w (write_status k s w)
  delivered : (n : Notification) (w : World) → Step k job w (deliver n w)
  buried : (m : DlqMessage) (w : World) → Step k job w (enqueue_dlq m w)
