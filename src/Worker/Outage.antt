-- ===== src/Worker/Outage.antt =====
-- Jobs whose handling raises, as during an outage of the database.
use notification_service_kaf.Prelude.{ℕ, ◌≡◌, refl, ap, ◌∙◌, sym, ◌∷◌, some, true}
use notification_service_kaf.Schemas.{NotificationJob}
use notification_service_kaf.Runtime.{Exc, exc_text, is_exception, World, Worker, kafka, done}
use notification_service_kaf.Runtime.Monad.{Result, ok, raised, Nothing, continue, recover, tick}
use notification_service_kaf.Worker.Dlq.{publish_job, send_dlq, enqueue_dlq}
use notification_service_kaf.Worker.Processor.{handle_job}
use notification_service_kaf.Worker.Consumer.{Record, handle_message, handle_and_commit}
use notification_service_kaf.Worker.Reliable.{job_letter, call-done}
use notification_service_kaf.Worker.Lost.{IsRecordOf, commit_message-done}
use notification_service_kaf.Worker.Step.Invariant.{handle_job-Frames}

-- The record is consumed from `w` after its job raised in `u`: a dead letter of the job with the text
-- of the exception is put on top, the offset is committed, and all else is as the job left it.
pub record IsGivenAway (k : Worker) (job : NotificationJob) (e : Exc) (w u : World)
    (p : Result Nothing × World) : Type 0 where
  pub returned : p.0 ≡ ok tt
  pub acknowledged : p.1.committed ≡ some w.position
  pub buried : p.1.dlq ≡ job_letter k job (some (exc_text e)) u.clock ∷ u.dlq
  pub same_deliveries : p.1.deliveries ≡ u.deliveries
  pub same_sent : p.1.sent ≡ u.sent

module _ (k : Worker) (kafka_done : (n : ℕ) → k.env.outcome kafka n ≡ done) where
  publish_job-buried :
      (job : NotificationJob) (e : Exc) (u : World)
      → publish_job k job (some (exc_text e)) u
        ≡ (ok tt, enqueue_dlq (job_letter k job (some (exc_text e)) u.clock) (tick k u))
  unfolding publish_job send_dlq continue
  publish_job-buried job e u = call-done k kafka _ u (kafka_done u.calls)

  module _ (job : NotificationJob) (msg : Record) (m : IsRecordOf k job msg) (w : World)
      (running : w.consumer_open ≡ true) where
    -- Where Kafka works and the consumer is open, a record whose handle_job raises anything but a
    -- cancellation, as when the database refuses the first lookup, is consumed: handling returns,
    -- the offset is committed and one dead letter with the text of the exception is added, while
    -- the delivery table, the notifications that were sent and the other dead letters are as
    -- handle_job left them.
    pub raised-IsGivenAway :
        (e : Exc) (u : World)
        → handle_job k job w ≡ (raised e, u)
        → is_exception e ≡ true
        → IsGivenAway k job e w u (handle_and_commit k msg w)
    unfolding handle_message continue recover
    raised-IsGivenAway e u h x =
        let frames = handle_job-Frames k job w in
        let after = ap (λ (p : Result Nothing × World). p.1) h in
        let v = enqueue_dlq (job_letter k job (some (exc_text e)) u.clock) (tick k u) in
        rw
          (
            m.carried,
            m.loaded,
            m.valid,
            h,
            x,
            publish_job-buried job e u,
            commit_message-done k kafka_done v
                (sym (ap (λ (z : World). z.consumer_open) after) ∙ frames.4 ∙ running),
          )
          record {
            returned = refl;
            acknowledged = ap some (sym (ap (λ (z : World). z.position) after) ∙ frames.3);
            buried = refl;
            same_deliveries = refl;
            same_sent = refl;
          }
