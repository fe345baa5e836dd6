-- ===== src/Worker/Returns.antt =====
-- Why handle_job returns, whatever the calls of the services do.
pub mod Loop
pub mod Claim
pub mod Handle
use notification_service_kaf.Prelude.{
  ℕ, zero, suc, ◌+◌, ◌-◌, ◌≤◌, ◌<◌, ◌≡◌, ◌⊎◌, inl, inr, refl, ap, ◌∙◌, String, List, [], Option,
  none, some, Bool, true, false, arith, leb, le→leb, length, str_eq, Bool-cases, subst,
  if◌then◌else◌,
}
use notification_service_kaf.Schemas.{
  NotificationJob, NotificationDelivery, sent, failed, retrying, expired, email, push, ws, value,
  truthy,
}
use notification_service_kaf.Deliveries.{Saved, find_row, claimable}
use notification_service_kaf.Deliveries.Frame.{find_row-upsert, saved_over-fields}
use notification_service_kaf.Runtime.{Exc, exc_text, World, Worker, db, smtp, kafka, timer}
use notification_service_kaf.Runtime.Monad.{
  Action, Nothing, Result, ok, raised, tick, sleep, continue, recover, call, or_raise,
}
use notification_service_kaf.Runtime.Ensures.{
  Ensures, Ensures-if, Ensures-recover, Ensures-continue, Ensures-call, Ensures-weaken,
}
use notification_service_kaf.Runtime.Trace.{Steps, Steps-keep, Steps-continue}
use notification_service_kaf.Worker.Repo.{save_status, write_status, stale_before}
use notification_service_kaf.Worker.Dlq.{publish_job, send_dlq}
use notification_service_kaf.Worker.Status.{mark_sent, mark_failure, sent_values, unsent_values}
use notification_service_kaf.Worker.Timing.{attempts_of}
use notification_service_kaf.Worker.Senders.{send_email, send_push, send_ws}
use notification_service_kaf.Worker.Auth.{UserContacts, get_user_contacts}
use notification_service_kaf.Worker.Retry.{
  rounds, try_send, on_failure, after_failure, attempt_with_retries,
}
use notification_service_kaf.Worker.Processor.{attempt_send, dispatch, normalize_channel, member}
use notification_service_kaf.Worker.Quiet.{get_user_contacts-Quiet, get_template-Quiet, sent_of}
use notification_service_kaf.Worker.Reliable.{job_letter, IsIn}
use notification_service_kaf.Worker.Sends.{sends}
use notification_service_kaf.Worker.Step.Handle.{attempt_send-Does}
use notification_service_kaf.Worker.Step.Runs.{mark_sent-Does}
use notification_service_kaf.Worker.Step.{
  Step, passed, slept, inserted, updated, wrote, delivered, buried,
}

-- The row of the job after an attempt that sent it, or after the last failed one.
pub data Ending (k : Worker) (job : NotificationJob) (before : ℕ) (v : World) : Type 0 where
  was_sent :
      (r : NotificationDelivery)
      → find_row job.job_id v.deliveries ≡ some r
      → r.status ≡ sent
      → before < sends v
      → Ending k job before v
  was_buried :
      (r : NotificationDelivery) (error : String) (now : ℕ)
      → find_row job.job_id v.deliveries ≡ some r
      → r.status ≡ failed
      → r.attempts ≡ k.settings.max_attempts
      → r.error_message ≡ some error
      → IsIn (job_letter k job (some error) now) v.dlq
      → Ending k job before v

-- Why handle_job returned in `v`, when it began in `w`.
pub data Reason (k : Worker) (job : NotificationJob) (w v : World) : Type 0 where
  attempted : Ending k job (sends w) v → Reason k job w v
  has_expired :
      (e : ℕ) (r : NotificationDelivery)
      → job.expires_at ≡ some e
      → e < v.clock
      → find_row job.job_id v.deliveries ≡ some r
      → r.status ≡ expired
      → Reason k job w v
  not_claimable :
      (r : NotificationDelivery) (now : ℕ)
      → v.deliveries ≡ w.deliveries
      → find_row job.job_id v.deliveries ≡ some r
      → claimable (stale_before now) r ≡ false
      → w.clock ≤ now
      → now ≤ v.clock
      → Reason k job w v
  spent :
      k.settings.max_attempts ≤ attempts_of (find_row job.job_id w.deliveries) → Reason k job w v

Step-sends : (k : Worker) (job : NotificationJob) (u v : World) → Step k job u v → sends u ≤ sends v
Step-sends k job u v (passed w) = omega arith
Step-sends k job u v (slept d w) = omega arith
Step-sends k job u v (inserted c now w e) = omega arith
Step-sends k job u v (updated now b w) = omega arith
Step-sends k job u v (wrote s w r) = omega arith
Step-sends k job u v (delivered n w) = omega arith
Step-sends k job u v (buried m w) = omega arith

-- What a job's steps have sent stays sent.
pub Steps-sends :
    (k : Worker) (job : NotificationJob) (u v : World) → Steps (Step k job) u v → sends u ≤ sends v
Steps-sends k job u v s =
    Steps-keep (λ x. sends u ≤ sends x) (λ a b t h. omega (arith, Step-sends k job a b t)) s
      (omega arith)
