-- ===== src/Worker/Stream.antt =====
-- Streams of records, each with a job of its own, and the ends of their jobs.
pub mod Drain
use notification_service_kaf.Prelude.{
  ℕ, ◌+◌, ◌≤◌, ◌≡◌, ◌≢◌, ◌⊎◌, inl, inr, refl, sym, ap, ◌∙◌, subst, String, List, [], ◌∷◌, Option,
  none, some, true, false, All, map, arith, Bool, if◌then◌else◌, ◌<◌, suc,
}
use notification_service_kaf.Schemas.{NotificationJob, NotificationDelivery, sent, failed}
use notification_service_kaf.Deliveries.{find_row}
use notification_service_kaf.Config.{retry_delays_seconds}
use notification_service_kaf.Runtime.{World, Worker, DlqMessage, kafka}
use notification_service_kaf.Runtime.Monad.{Result, ok, Nothing, Action, pure, continue, tick, call}
use notification_service_kaf.Worker.Consumer.{
  Record, consume, fetch, commit_position, handle_and_commit,
}
use notification_service_kaf.Worker.Processor.{handle_job}
use notification_service_kaf.Worker.Reliable.{IsReliable, job_letter, call-done, IsIn}
use notification_service_kaf.Worker.Attempt.{IsUncut}
use notification_service_kaf.Worker.Outcome.{IsSettled}
use notification_service_kaf.Worker.Sends.{sends}
use notification_service_kaf.Worker.Lost.{IsRecordOf, committed_after}
use notification_service_kaf.Worker.Offsets.{last_commit}
use notification_service_kaf.Worker.Delivery.{
  IsPending, IsPending-later, handle_job-IsSettled, returned_ok,
}
use notification_service_kaf.Worker.Step.Invariant.{handle_job-Frames, handle_job-find_row}

-- A record, and the job that it carries.
abbrev pub Load : Type 0
Load = Record × NotificationJob

abbrev pub records : List Load → List Record
records [] = []
records ((m, job) ∷ ls) = m ∷ records ls

abbrev pub IsOther : NotificationJob → Load → Type 0
IsOther job l = l.1.job_id ≢ job.job_id

abbrev pub IsDistinct : List Load → Type 0
IsDistinct [] = Unit {0}
IsDistinct ((m, job) ∷ ls) = All (IsOther job) ls × IsDistinct ls

-- The record carries the job, which does not expire and has no row, or one that may be claimed with an
-- attempt left.
abbrev pub IsWaiting : Worker → World → Load → Type 0
IsWaiting k w (m, job) =
    IsRecordOf k job m
    × (job.expires_at ≡ none)
    × IsPending k.settings.max_attempts w.clock (find_row job.job_id w.deliveries)

-- The job is SENT, or FAILED with the maximum of attempts and a dead letter that has the error of its
-- row.
pub record IsFinished (k : Worker) (limit : ℕ) (v : World) (l : Load) : Type 0 where
  pub row : NotificationDelivery
  pub found : find_row l.1.job_id v.deliveries ≡ some row
  pub ending :
      (row.status ≡ sent)
      ⊎ ((error : String) × (now : ℕ) × (row.status ≡ failed)
          × (row.attempts ≡ limit)
          × (row.error_message ≡ some error)
          × IsIn (job_letter k l.1 (some error) now) v.dlq)

-- What a run over the rest of the stream keeps.
pub record IsDrained (k : Worker) (limit : ℕ) (ls : List Load) (w : World)
    (p : Result Nothing × World) : Type 0 where
  pub returned : p.0 ≡ ok tt
  pub finished : All (IsFinished k limit p.1) ls
  pub committed : p.1.committed ≡ last_commit w.committed (records ls)
  pub others :
      (j : ℕ)
      → All (λ (l : Load). l.1.job_id ≢ j) ls
      → find_row j p.1.deliveries ≡ find_row j w.deliveries
  pub letters : (x : DlqMessage) → IsIn x w.dlq → IsIn x p.1.dlq

-- The world behind a record of the stream, from which the consumer goes on.
pub record IsAdvanced (k : Worker) (limit : ℕ) (m : Record) (job : NotificationJob) (w x : World)
    : Type 0 where
  pub went_on : (ms : List Record) → consume k (m ∷ ms) w ≡ consume k ms x
  pub finished : IsFinished k limit x (m, job)
  pub later : w.clock ≤ x.clock
  pub running : x.stopped ≡ false
  pub still_open : x.consumer_open ≡ true
  pub committed : x.committed ≡ some (suc m.offset)
  pub others : (j : ℕ) → j ≢ job.job_id → find_row j x.deliveries ≡ find_row j w.deliveries
  pub letters : (x' : DlqMessage) → IsIn x' w.dlq → IsIn x' x.dlq

pub IsFinished-later :
    (k : Worker) (limit : ℕ) (u v : World) (l : Load)
    → find_row l.1.job_id v.deliveries ≡ find_row l.1.job_id u.deliveries
    → ((x : DlqMessage) → IsIn x u.dlq → IsIn x v.dlq)
    → IsFinished k limit u l
    → IsFinished k limit v l
IsFinished-later k limit u v l e h f = record {
  row = f.row;
  found = e ∙ f.found;
  ending = go f.ending;
}
  where
    go :
        (f.row.status ≡ sent)
          ⊎ ((error : String) × (now : ℕ) × (f.row.status ≡ failed)
              × (f.row.attempts ≡ limit)
              × (f.row.error_message ≡ some error)
              × IsIn (job_letter k l.1 (some error) now) u.dlq)
        → (f.row.status ≡ sent)
          ⊎ ((error : String) × (now : ℕ) × (f.row.status ≡ failed)
              × (f.row.attempts ≡ limit)
              × (f.row.error_message ≡ some error)
              × IsIn (job_letter k l.1 (some error) now) v.dlq)
    go (inl s) = inl s
    go (inr (error, now, a, b, c, d)) = inr (error, now, a, b, c, h _ d)
