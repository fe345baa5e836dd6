-- ===== src/Worker/Reliable.antt =====
-- The calls of the database, of Kafka and of the timers where they succeed.
use notification_service_kaf.Prelude.{ℕ, ◌+◌, ◌≡◌, String, Option, some, Bool, List, [], ◌∷◌, ◌⊎◌}
use notification_service_kaf.Schemas.{NotificationJob, expired}
use notification_service_kaf.Deliveries.{Saved, find_row}
use notification_service_kaf.Runtime.{
  World, Worker, Service, db, kafka, timer, done, of_job, of_raw, DlqMessage,
}
use notification_service_kaf.Runtime.Monad.{ok, tick, call, ask, continue, sleep}
use notification_service_kaf.Worker.Repo.{save_status, write_status, get_by_job_id}
use notification_service_kaf.Worker.Dlq.{
  publish_job, publish_raw, send_dlq, enqueue_dlq, dlq_message,
}
use notification_service_kaf.Worker.Status.{
  mark_sent, mark_failure, mark_expired, sent_values, unsent_values, failure_status,
}

-- Postgres, Kafka and the timers do what they are asked; SMTP and the Auth service may fail.
pub record IsReliable (k : Worker) : Type 0 where
  pub db_done : (n : ℕ) → k.env.outcome db n ≡ done
  pub kafka_done : (n : ℕ) → k.env.outcome kafka n ≡ done
  pub timer_done : (n : ℕ) → k.env.outcome timer n ≡ done

-- The dead letter of a job.
abbrev pub job_letter : Worker → NotificationJob → Option String → ℕ → DlqMessage
job_letter k job error now =
    dlq_message k (of_job (k.libs.model_dump job) error now) (some (k.libs.uuid_text job.job_id))

abbrev pub IsIn : DlqMessage → List DlqMessage → Type 0
IsIn x [] = ⊥
IsIn x (y ∷ ys) = (x ≡ y) ⊎ IsIn x ys

abbrev pub raw_letter : Worker → List ℕ → Option String → ℕ → DlqMessage
raw_letter k raw error now =
    dlq_message k (of_raw (k.libs.decode_replace raw) error now) Option.none

module _ (k : Worker) where
  pub call-done :
      (s : Service) (effect : World → World) (w : World)
      → k.env.outcome s w.calls ≡ done
      → call k s effect w ≡ (ok tt, effect (tick k w))
  unfolding call
  call-done s effect w e = rw e

  pub ask-done :
      {A : Type 0} (s : Service) (effect : World → A × World) (w : World)
      → k.env.outcome s w.calls ≡ done
      → ask k s effect w ≡ (ok (effect (tick k w)).0, (effect (tick k w)).1)
  unfolding ask
  ask-done s effect w e = rw e

  module _ (reliable : IsReliable k) where
    open reliable use {db_done, kafka_done, timer_done}

    pub save_status-done :
        (s : Saved) (w : World) → save_status k s w ≡ (ok tt, write_status k s (tick k w))
    unfolding save_status
    save_status-done s w = call-done db _ w (db_done w.calls)

    pub sleep-done :
        (d : ℕ) (w : World)
        → sleep k d w ≡ (
          ok tt,
          record w { clock = w.clock + k.env.elapse w.calls + d; calls = (tick k w).calls },
        )
    unfolding sleep
    sleep-done d w = call-done timer _ w (timer_done w.calls)

    pub get_by_job_id-done :
        (j : ℕ) (w : World) → get_by_job_id k j w ≡ (ok (find_row j w.deliveries), tick k w)
    unfolding get_by_job_id
    get_by_job_id-done j w = ask-done db _ w (db_done w.calls)

    module _ (job : NotificationJob) where
      pub mark_sent-done :
          (n : ℕ) (w : World)
          → mark_sent k job n w ≡ (ok tt, write_status k (sent_values job n w.clock) (tick k w))
      unfolding mark_sent continue
      mark_sent-done n w = save_status-done _ w

      pub mark_failure-done :
          (n : ℕ) (e : String) (b : Bool) (w : World)
          → mark_failure k job n e b w
            ≡ (ok tt, write_status k (unsent_values job (failure_status b) n e) (tick k w))
      unfolding mark_failure
      mark_failure-done n e b w = save_status-done _ w

      pub mark_expired-done :
          (n : ℕ) (w : World)
          → mark_expired k job n w ≡ (
            ok tt,
            write_status k (unsent_values job expired n "Notification expired") (tick k w),
          )
      unfolding mark_expired
      mark_expired-done n w = save_status-done _ w

      pub publish_job-done :
          (e : Option String) (w : World)
          → publish_job k job e w ≡ (ok tt, enqueue_dlq (job_letter k job e w.clock) (tick k w))
      unfolding publish_job send_dlq continue
      publish_job-done e w = call-done kafka _ w (kafka_done w.calls)

    pub publish_raw-done :
        (raw : List ℕ) (e : Option String) (w : World)
        → publish_raw k (some raw) e w
          ≡ (ok tt, enqueue_dlq (raw_letter k raw e w.clock) (tick k w))
    unfolding publish_raw send_dlq continue
    publish_raw-done raw e w = call-done kafka _ w (kafka_done w.calls)
