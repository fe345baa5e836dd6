-- ===== src/Worker/Expired.antt =====
-- Jobs whose expiry has passed.
use notification_service_kaf.Prelude.{ℕ, ◌≡◌, ◌<◌, refl, some, none, false, lt→leb}
use notification_service_kaf.Schemas.{NotificationJob, NotificationDelivery, expired}
use notification_service_kaf.Deliveries.{find_row, upsert}
use notification_service_kaf.Deliveries.Frame.{saved_over, find_row-upsert, saved_over-fields}
use notification_service_kaf.Runtime.{World, Worker}
use notification_service_kaf.Runtime.Monad.{Result, ok, Nothing, continue, tick}
use notification_service_kaf.Worker.Repo.{write_status}
use notification_service_kaf.Worker.Status.{unsent_values, mark_expired}
use notification_service_kaf.Worker.Timing.{attempts_of, handle_expiration_if_needed}
use notification_service_kaf.Worker.Processor.{handle_job, should_skip}
use notification_service_kaf.Worker.Reliable.{IsReliable, get_by_job_id-done, mark_expired-done}

-- The job is given up: its row is EXPIRED with the attempts that it had, and nothing is sent or buried.
pub record IsGivenUp (job : NotificationJob) (w : World) (p : Result Nothing × World) : Type 0 where
  pub returned : p.0 ≡ ok tt
  pub row : NotificationDelivery
  pub found : find_row job.job_id p.1.deliveries ≡ some row
  pub status_expired : row.status ≡ expired
  pub same_attempts : row.attempts ≡ attempts_of (find_row job.job_id w.deliveries)
  pub message : row.error_message ≡ some "Notification expired"
  pub unclaimed : row.processing_started_at ≡ none
  pub unsent : p.1.sent ≡ w.sent
  pub unburied : p.1.dlq ≡ w.dlq

module _ (k : Worker) (reliable : IsReliable k) (job : NotificationJob) (w : World) where
  abbrev expired_world : World
  expired_world =
      write_status k
        (unsent_values job expired (attempts_of (find_row job.job_id w.deliveries))
          "Notification expired")
        (tick k (tick k w))

  expired_run :
      (t : ℕ)
      → should_skip k.settings.max_attempts (find_row job.job_id w.deliveries) ≡ false
      → job.expires_at ≡ some t
      → t < (tick k w).clock
      → handle_job k job w ≡ (ok tt, expired_world)
  unfolding handle_job handle_expiration_if_needed continue mark_expired upsert
  expired_run t s e h = rw (
    get_by_job_id-done k reliable job.job_id w,
    s,
    e,
    lt→leb (tick k w).clock t h,
    mark_expired-done k reliable job (attempts_of (find_row job.job_id w.deliveries)) (tick k w),
  )

  -- Where the services work, handling a job that is not to be skipped and whose expiry has passed
  -- returns and leaves its row EXPIRED with the attempts that it had, unclaimed and with the
  -- message of expiry; nothing is sent or buried, even if another worker had claimed the job.
  pub expired-IsGivenUp :
      (t : ℕ)
      → should_skip k.settings.max_attempts (find_row job.job_id w.deliveries) ≡ false
      → job.expires_at ≡ some t
      → t < (tick k w).clock
      → IsGivenUp job w (handle_job k job w)
  expired-IsGivenUp t s e h =
      let o = find_row job.job_id w.deliveries in
      let saved = unsent_values job expired (attempts_of o) "Notification expired" in
      let stamp = k.env.db_now (tick k (tick k w)).calls in
      let fields = saved_over-fields saved stamp o in
      rw (expired_run t s e h) record {
        returned = refl;
        row = saved_over saved stamp o;
        found = find_row-upsert saved stamp w.deliveries;
        status_expired = fields.0;
        same_attempts = fields.1;
        message = fields.2;
        unclaimed = fields.4;
        unsent = refl;
        unburied = refl;
      }
