-- ===== src/Worker/Contended.antt =====
-- A job between two attempts of its worker.
use notification_service_kaf.Prelude.{ℕ, ◌≡◌, refl, String, Bool, true, false}
use notification_service_kaf.Schemas.{NotificationJob, NotificationDelivery, retrying, processing}
use notification_service_kaf.Deliveries.{find_row}
use notification_service_kaf.Deliveries.Store.{taken}
use notification_service_kaf.Deliveries.Frame.{find_row-upsert, saved_over, saved_over-fields}
use notification_service_kaf.Runtime.{World, Worker, done, db}
use notification_service_kaf.Runtime.Monad.{Result, tick}
use notification_service_kaf.Worker.Repo.{save_status, write_status, try_claim_job}
use notification_service_kaf.Worker.Status.{mark_failure, unsent_values}
use notification_service_kaf.Worker.Reliable.{IsReliable, call-done}
use notification_service_kaf.Worker.Claiming.{IsClaim, try_claim_job-free}

-- A claim that was granted on a row with these attempts.
abbrev pub IsSeized : ℕ → ℕ → World → Result Bool × World → Type 0
IsSeized j n w p =
    (r : NotificationDelivery) × IsClaim j w true r p × (r.status ≡ processing) × (r.attempts ≡ n)

module _ (k other : Worker) (job : NotificationJob) (user : ℕ) (channel : String)
    (db_done : (n : ℕ) → k.env.outcome db n ≡ done) (reliable : IsReliable other) where
  -- Where the database works for both workers, and Kafka and the timers for the second, a job that
  -- one worker has just recorded as RETRYING is claimed by another worker that tries to: its row
  -- becomes PROCESSING with the attempts that were recorded.
  pub mark_failure-IsSeized :
      (n : ℕ) (error : String) (w : World)
      → let v = (mark_failure k job n error false w).1 in
        IsSeized job.job_id n v (try_claim_job other job.job_id user channel v)
  unfolding mark_failure save_status
  mark_failure-IsSeized n error w =
      let s = unsent_values job retrying n error in
      let v = write_status k s (tick k w) in
      let o = find_row job.job_id w.deliveries in
      let fields = saved_over-fields s (k.env.db_now (tick k w).calls) o in
      let r = saved_over s (k.env.db_now (tick k w).calls) o in
      rw (call-done k db (write_status k s) w (db_done w.calls)) (
        taken v.clock (other.env.db_now (tick other (tick other v)).calls) r,
        try_claim_job-free other job.job_id user channel reliable r v
            (find_row-upsert s (k.env.db_now (tick k w).calls) w.deliveries) (rw fields.0 refl),
        refl,
        fields.1,
      )
