-- ===== src/Tests/StreamTests.antt =====
-- The theorems on streams of records at concrete inputs.
use notification_service_kaf.Prelude.{
  ℕ, ◌≡◌, refl, List, [], ◌∷◌, Option, arith, some, none, true, All,
}
use notification_service_kaf.Text.{strip, split}
use notification_service_kaf.Schemas.{
  Json, null, bool, number, text, array, object, NotificationJob, NotificationDelivery, retrying,
  sent,
}
use notification_service_kaf.Config.{retry_delays_seconds, floats}
use notification_service_kaf.Runtime.{Worker, World}
use notification_service_kaf.Runtime.Monad.{ok}
use notification_service_kaf.Worker.Consumer.{Record, consume}
use notification_service_kaf.Worker.Attempt.{IsUncut}
use notification_service_kaf.Worker.Reliable.{IsReliable}
use notification_service_kaf.Worker.Lost.{IsRecordOf}
use notification_service_kaf.Worker.Stream.{IsFinished}
use notification_service_kaf.Worker.Stream.Drain.{consume-settles_each}
use notification_service_kaf.Runtime.{
  Service, Outcome, db, kafka, timer, disk, http, smtp, done, refused, postgres_error,
}
use notification_service_kaf.Runtime.Monad.{tick, ask, continue}
use notification_service_kaf.Worker.Repo.{get_by_job_id}
use notification_service_kaf.Worker.Processor.{handle_job, unless_skipped, should_skip}
use notification_service_kaf.Worker.Consumer.{handle_and_commit}
use notification_service_kaf.Worker.Accounted.{AllAccounted, consume-AllAccounted}
use notification_service_kaf.Worker.Offsets.{IsAtLeastOnce}
use notification_service_kaf.Worker.Overwritten.{IsOverwritten, unless_skipped-IsOverwritten}
use notification_service_kaf.Worker.Outage.{IsGivenAway, raised-IsGivenAway}
use notification_service_kaf.Tests.WorkerTests.{sample_record}
use notification_service_kaf.Tests.Samples.{
  calm, sample_job, sample_libs, smtp_down, sample_worker, sample_world, claimed_delivery,
}

-- Job 8, beside job 7.
abbrev next_job : NotificationJob
next_job = record sample_job { job_id = 8 }

abbrev job_record : Record
job_record = record { offset = 4; raw_value = some [] }

abbrev next_record : Record
next_record = record { offset = 5; raw_value = some (1 ∷ []) }

abbrev loads_by_length : List ℕ → Option Json
loads_by_length [] = some null
loads_by_length (b ∷ bs) = some (bool true)

abbrev validate_two : Json → Option NotificationJob
validate_two null = some sample_job
validate_two (bool b) = some next_job
validate_two (number s z) = none
validate_two (text s) = none
validate_two (array xs) = none
validate_two (object ms) = none

-- A worker that finds either job in its record, while the mail server refuses everything.
abbrev two_worker : Worker
two_worker = record (sample_worker smtp_down) {
  libs = record sample_libs {
    loads = loads_by_length;
    validate = validate_two;
    float = λ s. some 1;
  };
}

two_worker-IsReliable : IsReliable two_worker
two_worker-IsReliable = record {
  db_done = λ n. refl;
  kafka_done = λ n. refl;
  timer_done = λ n. refl;
}

job_record-IsRecordOf : IsRecordOf two_worker sample_job job_record
job_record-IsRecordOf = record {
  raw = _;
  carried = refl;
  payload = null;
  loaded = refl;
  valid = refl;
}

two_worker-IsUncut : IsUncut two_worker
two_worker-IsUncut = record {
  smtp_caught = λ n. refl;
  auth_caught = λ n. refl;
  formats_calmly = λ s v e h. absurd (cc);
}

-- A row of job 8 that failed once.
abbrev failed_once : NotificationDelivery
failed_once = record claimed_delivery {
  job_id = 8;
  status = retrying;
  attempts = 1;
  processing_started_at = none;
}

abbrev before : World
before = sample_world (failed_once ∷ [])

consume-settles_each_example :
    ((consume two_worker (job_record ∷ next_record ∷ []) before).0 ≡ ok tt)
    × All
        (IsFinished two_worker 3 (consume two_worker (job_record ∷ next_record ∷ []) before).1)
        ((job_record, sample_job) ∷ (next_record, next_job) ∷ [])
    × ((consume two_worker (job_record ∷ next_record ∷ []) before).1.committed ≡ some 6)
unfolding retry_delays_seconds floats strip split
consume-settles_each_example =
    consume-settles_each two_worker two_worker-IsReliable two_worker-IsUncut (1 ∷ 1 ∷ 1 ∷ []) refl
      ((job_record, sample_job) ∷ (next_record, next_job) ∷ []) before refl refl
      ((omega arith, tt), (tt, tt))
      (
        (job_record-IsRecordOf, refl, omega arith),
        (
          (
            record { raw = _; carried = refl; payload = bool true; loaded = refl; valid = refl },
            refl,
            (refl, omega arith),
          ),
          tt,
        ),
      )

-- The mail server is down, so the job ends with a dead letter.
consume-AllAccounted_example :
    (a : IsAtLeastOnce two_worker
      (job_record ∷ next_record ∷ [])
      before
      (consume two_worker (job_record ∷ next_record ∷ []) before))
    × AllAccounted two_worker a.run
consume-AllAccounted_example =
    consume-AllAccounted two_worker (job_record ∷ next_record ∷ []) before refl

-- The worker has read no row; meanwhile another one has sent the job and recorded it.
abbrev expiring_job : NotificationJob
expiring_job = record sample_job { expires_at = some 5 }

abbrev sent_meanwhile : World
sent_meanwhile =
    sample_world (record claimed_delivery { status = sent; attempts = 1; sent_at = some 4 } ∷ [])

unless_skipped-IsOverwritten_example :
    IsOverwritten expiring_job none sent_meanwhile
      (unless_skipped two_worker expiring_job none (should_skip 3 none) sent_meanwhile)
unfolding should_skip
unless_skipped-IsOverwritten_example =
    unless_skipped-IsOverwritten two_worker (λ n. refl) expiring_job none 5 sent_meanwhile refl refl
      (omega arith)

abbrev db_down_outcome : Service → Outcome
db_down_outcome db = refused (postgres_error "connection refused")
db_down_outcome kafka = done
db_down_outcome timer = done
db_down_outcome disk = done
db_down_outcome http = done
db_down_outcome smtp = done

-- The database refuses every call.
abbrev db_down_worker : Worker
db_down_worker = sample_worker (record calm { outcome = λ s n. db_down_outcome s })

raised-IsGivenAway_example :
    IsGivenAway db_down_worker sample_job
      (postgres_error "connection refused")
      (sample_world [])
      (tick db_down_worker (sample_world []))
      (handle_and_commit db_down_worker sample_record (sample_world []))
unfolding handle_job get_by_job_id ask continue
raised-IsGivenAway_example =
    raised-IsGivenAway db_down_worker (λ n. refl) sample_job sample_record
      (record { raw = _; carried = refl; payload = null; loaded = refl; valid = refl })
      (sample_world []) refl (postgres_error "connection refused")
      (tick db_down_worker (sample_world [])) refl refl
