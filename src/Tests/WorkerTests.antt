-- ===== src/Tests/WorkerTests.antt =====
-- The worker's theorems at concrete inputs.
use notification_service_kaf.Prelude.{All, ◌≡◌, refl, ◌≤◌, ◌+◌, ◌-◌, [], ◌∷◌, some, none, arith}
use notification_service_kaf.Schemas.{
  NotificationDelivery, NotificationJob, sent, retrying, processing, email, null,
}
use notification_service_kaf.Text.{strip, split}
use notification_service_kaf.Deliveries.{find_row}
use notification_service_kaf.Config.{floats, retry_delays_seconds}
use notification_service_kaf.Runtime.{runtime_error, Worker}
use notification_service_kaf.Worker.Rejected.{
  IsBuried, rejection-IsBuried, IsStuck, tombstone-IsStuck,
}
use notification_service_kaf.Runtime.Monad.{Action, Nothing, raise}
use notification_service_kaf.Worker.Retry.{attempt_with_retries}
use notification_service_kaf.Worker.Processor.{handle_job, should_skip}
use notification_service_kaf.Worker.Expired.{IsGivenUp, expired-IsGivenUp}
use notification_service_kaf.Worker.Consumer.{Record, handle_and_commit, run_loop}
use notification_service_kaf.Worker.Reliable.{IsReliable}
use notification_service_kaf.Worker.Outcome.{IsSettled, attempt_with_retries-IsSettled}
use notification_service_kaf.Worker.Lost.{
  IsImmediate, IsRecordOf, IsDropped, processing-IsDropped, exhausted-IsDropped,
}
use notification_service_kaf.Worker.Sends.{sends, handle_job-sends-le}
use notification_service_kaf.Worker.Terminal.{handle_job-sent_finished}
use notification_service_kaf.Worker.Step.Counts.{IsCountedRow, handle_job-IsCounted}
use notification_service_kaf.Worker.Step.Channels.{HasChannel, handle_job-HasChannel}
use notification_service_kaf.Worker.Step.Invariant.{IsSound, handle_job-IsSound}
use notification_service_kaf.Tests.Samples.{
  sample_worker, sample_world, sample_job, sample_libs, calm, smtp_down, claimed_delivery,
}

handle_job-sends-le_example :
    sends (handle_job (sample_worker smtp_down) sample_job (sample_world [])).1 ≤ 0 + (3 - 0)
handle_job-sends-le_example =
    handle_job-sends-le (sample_worker smtp_down) sample_job (sample_world [])

abbrev pub other_delivery : NotificationDelivery
other_delivery = record claimed_delivery { job_id = 8 }

handle_job-IsSound_example :
    IsSound (handle_job (sample_worker smtp_down) sample_job (sample_world (other_delivery ∷ []))).1
handle_job-IsSound_example =
    handle_job-IsSound (sample_worker smtp_down) sample_job (sample_world (other_delivery ∷ []))
      ((refl, tt), (((λ x. cc), refl), tt))

handle_job-HasChannel_example :
    All HasChannel
      (handle_job (sample_worker calm) sample_job (sample_world (other_delivery ∷ []))).1.deliveries
handle_job-HasChannel_example =
    handle_job-HasChannel (sample_worker calm) sample_job (sample_world (other_delivery ∷ []))
      ((email, refl), tt)

handle_job-IsCounted_example :
    All
      (IsCountedRow 3)
      (handle_job (sample_worker calm) sample_job (sample_world (other_delivery ∷ []))).1.deliveries
handle_job-IsCounted_example =
    handle_job-IsCounted (sample_worker calm) sample_job (sample_world (other_delivery ∷ []))
      (omega arith, tt)

abbrev sent_delivery : NotificationDelivery
sent_delivery = record claimed_delivery {
  status = sent;
  attempts = 1;
  processing_started_at = none;
  sent_at = some 5;
}

handle_job-sent_finished_example :
    (handle_job (sample_worker calm) sample_job (sample_world (sent_delivery ∷ []))).1.sent ≡ []
handle_job-sent_finished_example =
    handle_job-sent_finished (sample_worker calm) sample_job sent_delivery refl
      (sample_world (sent_delivery ∷ [])) refl

pub smtp_down-IsReliable : IsReliable (sample_worker smtp_down)
smtp_down-IsReliable = record {
  db_done = λ n. refl;
  kafka_done = λ n. refl;
  timer_done = λ n. refl;
}

abbrev always_down : NotificationJob → Action Nothing
always_down job = raise (runtime_error "down")

attempt_with_retries-IsSettled_example :
    IsSettled (sample_worker smtp_down) sample_job 3 (sample_world []) (
      attempt_with_retries
        (sample_worker smtp_down)
        sample_job
        3
        (5 ∷ [])
        always_down
        1
        (sample_world []))
attempt_with_retries-IsSettled_example =
    attempt_with_retries-IsSettled (sample_worker smtp_down) sample_job 3 smtp_down-IsReliable
      (5 ∷ []) always_down
      (λ w. record { uncancelled = refl; same_dlq = refl; kept = omega arith; delivered = λ e. cc })
      1 (sample_world []) (omega arith)

abbrev pub sample_record : Record
sample_record = record { offset = 4; raw_value = some [] }

pub sample_is_record : IsRecordOf (sample_worker smtp_down) sample_job sample_record
sample_is_record = record { raw = _; carried = refl; payload = null; loaded = refl; valid = refl }

sample-IsImmediate : IsImmediate sample_job
sample-IsImmediate = record { no_expiry = refl; no_delay = refl }

processing-IsDropped_example :
    let w = sample_world (claimed_delivery ∷ []) in
    IsDropped w (handle_and_commit (sample_worker smtp_down) sample_record w)
    × ((handle_and_commit (sample_worker smtp_down) sample_record w).1.deliveries ≡ w.deliveries)
processing-IsDropped_example =
    processing-IsDropped (sample_worker smtp_down) sample_job smtp_down-IsReliable
      sample-IsImmediate sample_record sample_is_record claimed_delivery
      (sample_world (claimed_delivery ∷ [])) refl refl 999000000 refl refl (omega arith)

-- A job that was tried three times while the maximum was higher.
abbrev spent_delivery : NotificationDelivery
spent_delivery = record claimed_delivery {
  status = retrying;
  attempts = 3;
  error_message = some "down";
  processing_started_at = none;
}

exhausted-IsDropped_example :
    let w = sample_world (spent_delivery ∷ []) in
    let p = handle_and_commit (sample_worker smtp_down) sample_record w in
    IsDropped w p
    × (s : NotificationDelivery) × (find_row 7 p.1.deliveries ≡ some s)
    × (s.status ≡ processing)
    × (s.attempts ≡ 3)
unfolding retry_delays_seconds floats strip split
exhausted-IsDropped_example =
    exhausted-IsDropped (sample_worker smtp_down) sample_job smtp_down-IsReliable sample-IsImmediate
      sample_record sample_is_record spent_delivery (sample_world (spent_delivery ∷ [])) refl refl
      (1000000 ∷ 1000000 ∷ 1000000 ∷ []) refl refl (omega arith) refl

-- A worker that reads no message as JSON.
abbrev deaf_worker : Worker
deaf_worker = record (sample_worker smtp_down) { libs = record sample_libs { loads = λ raw. none } }

deaf_worker-IsReliable : IsReliable deaf_worker
deaf_worker-IsReliable = record {
  db_done = λ n. refl;
  kafka_done = λ n. refl;
  timer_done = λ n. refl;
}

rejection-IsBuried_example :
    IsBuried deaf_worker [] "Invalid JSON in Kafka message"
      (sample_world [])
      (handle_and_commit deaf_worker sample_record (sample_world []))
rejection-IsBuried_example =
    rejection-IsBuried deaf_worker deaf_worker-IsReliable [] (sample_world []) sample_record
      "Invalid JSON in Kafka message" refl refl refl

-- A record without a value.
abbrev tombstone : Record
tombstone = record { offset = 6; raw_value = none }

tombstone-IsStuck_example :
    IsStuck
      (sample_world [])
      (run_loop deaf_worker (tombstone ∷ sample_record ∷ []) (sample_world []))
tombstone-IsStuck_example =
    tombstone-IsStuck deaf_worker tombstone (sample_record ∷ []) (sample_world []) (λ n. refl) refl
      refl refl

-- A job that expired five microseconds after the epoch.
abbrev late_job : NotificationJob
late_job = record sample_job { expires_at = some 5 }

expired-IsGivenUp_example :
    IsGivenUp late_job
      (sample_world (claimed_delivery ∷ []))
      (handle_job (sample_worker smtp_down) late_job (sample_world (claimed_delivery ∷ [])))
unfolding should_skip
expired-IsGivenUp_example =
    expired-IsGivenUp (sample_worker smtp_down) smtp_down-IsReliable late_job
      (sample_world (claimed_delivery ∷ [])) 5 refl refl (omega arith)
