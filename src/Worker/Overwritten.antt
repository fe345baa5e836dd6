-- ===== src/Worker/Overwritten.antt =====
-- A worker that goes on from a row that it read before other workers changed it.
use notification_service_kaf.Prelude.{ℕ, ◌≡◌, ◌<◌, refl, Option, some, none, false, lt→leb}
use notification_service_kaf.Schemas.{NotificationJob, NotificationDelivery, expired}
use notification_service_kaf.Deliveries.{find_row}
use notification_service_kaf.Deliveries.Frame.{saved_over, find_row-upsert, saved_over-fields}
use notification_service_kaf.Runtime.{World, Worker, db, done}
use notification_service_kaf.Runtime.Monad.{Result, ok, Nothing, continue, tick}
use notification_service_kaf.Worker.Repo.{save_status, write_status}
use notification_service_kaf.Worker.Status.{unsent_values, mark_expired}
use notification_service_kaf.Worker.Timing.{attempts_of, handle_expiration_if_needed}
use notification_service_kaf.Worker.Processor.{should_skip, unless_skipped}
use notification_service_kaf.Worker.Reliable.{call-done}

-- The row of the job is EXPIRED, with the attempts that were read and no instant of a send.
pub record IsOverwritten (job : NotificationJob) (existing : Option NotificationDelivery)
    (v : World) (p : Result Nothing × World) : Type 0 where
  pub returned : p.0 ≡ ok tt
  pub row : NotificationDelivery
  pub found : find_row job.job_id p.1.deliveries ≡ some row
  pub status_expired : row.status ≡ expired
  pub read_attempts : row.attempts ≡ attempts_of existing
  pub never_sent : row.sent_at ≡ none
  pub same_sent : p.1.sent ≡ v.sent

module _ (k : Worker) (db_done : (n : ℕ) → k.env.outcome db n ≡ done) (job : NotificationJob) where
  -- Where the database works, a worker that has read a row of a job that is not to be skipped, or
  -- none, and goes on after the job's expiry, in whatever state other workers have left by then,
  -- returns with the row of the job EXPIRED, with the attempts that it read and no instant of a
  -- send, also if another worker has meanwhile sent the job and recorded it as SENT; it sends
  -- nothing.
  pub unless_skipped-IsOverwritten :
      (existing : Option NotificationDelivery) (t : ℕ) (v : World)
      → should_skip k.settings.max_attempts existing ≡ false
      → job.expires_at ≡ some t
      → t < v.clock
      → IsOverwritten job existing v
          (unless_skipped k job existing (should_skip k.settings.max_attempts existing) v)
  unfolding handle_expiration_if_needed continue mark_expired save_status
  unless_skipped-IsOverwritten existing t v s e h =
      let values = unsent_values job expired (attempts_of existing) "Notification expired" in
      let o = find_row job.job_id v.deliveries in
      let stamp = k.env.db_now (tick k v).calls in
      let fields = saved_over-fields values stamp o in
      rw (s, e, lt→leb v.clock t h, call-done k db (write_status k values) v (db_done v.calls))
        record {
          returned = refl;
          row = saved_over values stamp o;
          found = find_row-upsert values stamp v.deliveries;
          status_expired = fields.0;
          read_attempts = fields.1;
          never_sent = fields.3;
          same_sent = refl;
        }
