-- ===== src/Worker/Accounted.antt =====
-- Records whose offsets are committed: what became of each, whatever the calls of the services do.
use notification_service_kaf.Prelude.{
  ℕ, ◌≡◌, ◌≢◌, inl, refl, ap, sym, subst, String, List, Option, none, some, Bool, true, false,
  if◌then◌else◌,
}
use notification_service_kaf.Schemas.{NotificationJob, Json}
use notification_service_kaf.Runtime.{Exc, exc_text, is_exception, World, Worker, kafka}
use notification_service_kaf.Runtime.Monad.{
  Result, ok, raised, Nothing, continue, recover, ◌>>◌, pure,
}
use notification_service_kaf.Runtime.Ensures.{Ensures, Ensures-continue, Ensures-call}
use notification_service_kaf.Worker.Dlq.{publish_job, publish_raw, send_dlq}
use notification_service_kaf.Worker.Processor.{handle_job}
use notification_service_kaf.Worker.Consumer.{
  Record, handle_message, read_value, decoded, validated, process, handle_and_commit,
  commit_message, consume,
}
use notification_service_kaf.Worker.Reliable.{job_letter, raw_letter, IsIn}
use notification_service_kaf.Worker.Lost.{IsRecordOf}
use notification_service_kaf.Worker.Rejected.{rejection}
use notification_service_kaf.Worker.Messages.{handle_message-offsets}
use notification_service_kaf.Worker.Offsets.{
  Run, idle, handled, IsAtLeastOnce, consume-IsAtLeastOnce,
}
use notification_service_kaf.Worker.Returns.{Reason}
use notification_service_kaf.Worker.Returns.Handle.{handle_job-Reason}

-- The record was handled from `w` to `v`: it was rejected and buried, or handle_job returned, or
-- handle_job raised and its job was buried with the text of the exception.
pub data IsAccounted (k : Worker) (msg : Record) (w v : World) : Type 0 where
  rejected :
      (raw : List ℕ) (reason : String)
      → msg.raw_value ≡ some raw
      → rejection k raw ≡ some reason
      → IsIn (raw_letter k raw (some reason) w.clock) v.dlq
      → IsAccounted k msg w v
  returned :
      (job : NotificationJob) → IsRecordOf k job msg → Reason k job w v → IsAccounted k msg w v
  failed :
      (job : NotificationJob) (e : Exc)
      → IsRecordOf k job msg
      → (handle_job k job w).0 ≡ raised e
      → IsIn (job_letter k job (some (exc_text e)) (handle_job k job w).1.clock) v.dlq
      → IsAccounted k msg w v

module _ (k : Worker) (msg : Record) (w : World) where
  abbrev Accounted : Bool → World → Type 0
  Accounted b = IsAccounted k msg w

  publish_raw-IsIn :
      (raw : List ℕ) (reason : String)
      → Ensures
          (λ a v. IsIn (raw_letter k raw (some reason) w.clock) v.dlq)
          (publish_raw k (some raw) (some reason) w)
  unfolding publish_raw send_dlq continue
  publish_raw-IsIn raw reason = Ensures-call _ k kafka _ w (inl refl)

  publish_job-IsIn :
      (job : NotificationJob) (error : String) (u : World)
      → Ensures
          (λ a v. IsIn (job_letter k job (some error) u.clock) v.dlq)
          (publish_job k job (some error) u)
  unfolding publish_job send_dlq continue
  publish_job-IsIn job error u = Ensures-call _ k kafka _ u (inl refl)

  process-IsAccounted :
      (job : NotificationJob) → IsRecordOf k job msg → Ensures Accounted (process k job w)
  unfolding continue recover
  process-IsAccounted job r = go (handle_job k job w) refl
    where
      caught :
          (e : Exc) (u : World) (b : Bool)
          → handle_job k job w ≡ (raised e, u)
          → Ensures Accounted (
              if b
              then continue (λ x v. (ok true, v)) (publish_job k job (some (exc_text e)) u)
              else (raised e, u))
      caught e u true h =
          Ensures-continue
            (λ (a : Nothing) (v : World). IsIn (job_letter k job (some (exc_text e)) u.clock) v.dlq)
            Accounted (λ a v. (ok true, v)) (publish_job k job (some (exc_text e)) u)
            (publish_job-IsIn job (exc_text e) u)
            λ a v i. failed job e r (ap (λ (p : Result Nothing × World). p.0) h) (
              subst
                (λ (p : Result Nothing × World).
                  IsIn (job_letter k job (some (exc_text e)) p.1.clock) v.dlq)
                (sym h) i)
      caught e u false h = tt

      go :
          (p : Result Nothing × World)
          → handle_job k job w ≡ p
          → Ensures Accounted (
              recover
                (λ exc. publish_job k job (some (exc_text exc)) >> pure true)
                (continue (λ x v. (ok true, v)) p))
      go (ok x, u) h = returned job r (
          subst (λ (p : Result Nothing × World). Reason k job w p.1) h
            (handle_job-Reason k job w (ap (λ (p : Result Nothing × World). p.0) h)))
      go (raised e, u) h = caught e u (is_exception e) h

  validated-IsAccounted :
      (raw : List ℕ) (payload : Json) (o : Option NotificationJob)
      → msg.raw_value ≡ some raw
      → k.libs.loads raw ≡ some payload
      → k.libs.validate payload ≡ o
      → Ensures Accounted (validated k raw o w)
  validated-IsAccounted raw payload none c l v =
      Ensures-continue _ Accounted _ _ (publish_raw-IsIn raw "Invalid NotificationJob payload")
        λ a u i. rejected raw "Invalid NotificationJob payload" c (rw (l, v) refl) i
  validated-IsAccounted raw payload (some job) c l v =
      process-IsAccounted job
        (record { raw = raw; carried = c; payload = payload; loaded = l; valid = v })

  decoded-IsAccounted :
      (raw : List ℕ) (o : Option Json)
      → msg.raw_value ≡ some raw
      → k.libs.loads raw ≡ o
      → Ensures Accounted (decoded k raw o w)
  decoded-IsAccounted raw none c l =
      Ensures-continue _ Accounted _ _ (publish_raw-IsIn raw "Invalid JSON in Kafka message")
        λ a u i. rejected raw "Invalid JSON in Kafka message" c (rw l refl) i
  decoded-IsAccounted raw (some payload) c l =
      validated-IsAccounted raw payload (k.libs.validate payload) c l refl

  read_value-IsAccounted :
      (o : Option (List ℕ)) → msg.raw_value ≡ o → Ensures Accounted (read_value k o w)
  unfolding publish_raw continue
  read_value-IsAccounted none c = tt
  read_value-IsAccounted (some raw) c = decoded-IsAccounted raw (k.libs.loads raw) c refl

  handle_message-Ensures : Ensures Accounted (handle_message k msg w)
  unfolding handle_message
  handle_message-Ensures = read_value-IsAccounted msg.raw_value refl

  -- Whatever the calls of the services do, if handling a record changes the committed offset, the
  -- record is accounted for: it was rejected and a dead letter holds the raw message and the
  -- reason; or its job raised and a dead letter holds the job and the text of the exception; or
  -- handle_job returned, and then the job has just been sent and is SENT, or is FAILED with the
  -- maximum of attempts and a dead letter that carries the error of its row, or has expired and is
  -- EXPIRED, or has a row that could not be claimed and is unchanged, or had no attempt left.
  handle_and_commit-IsAccounted :
      (handle_and_commit k msg w).1.committed ≢ w.committed
      → IsAccounted k msg w (handle_message k msg w).1
  unfolding continue
  handle_and_commit-IsAccounted =
      go (handle_message k msg w) handle_message-Ensures
        (ap (λ (z : Option ℕ × ℕ × Bool × Bool). z.0) (handle_message-offsets k msg w))
    where
      go :
          (p : Result Bool × World)
          → Ensures Accounted p
          → p.1.committed ≡ w.committed
          → (continue (λ b. if b then commit_message k else pure tt) p).1.committed ≢ w.committed
          → IsAccounted k msg w p.1
      go (ok b, v) h e n = h
      go (raised x, v) h e n = absurd (n e)

-- Each record of the run is accounted for by the worlds between which it was handled.
abbrev pub AllAccounted : (k : Worker) {w x : World} {ms : List Record} → Run k w ms x → Type 0
AllAccounted k (idle w) = Unit {0}
AllAccounted k (handled m ms w u v x f h r) = IsAccounted k m u v × AllAccounted k r

Run-AllAccounted :
    (k : Worker) {w x : World} {ms : List Record} (r : Run k w ms x) → AllAccounted k r
Run-AllAccounted k (idle w) = tt
Run-AllAccounted k (handled m ms w u v x f h r) = (
  subst (Ensures (λ b. IsAccounted k m u)) h (handle_message-Ensures k m u),
  Run-AllAccounted k r,
)

-- Over any stream of records and whatever the calls of the services do, the offset that a running
-- consumer leaves committed is that of the last record of an initial part of the stream, all of it
-- if the loop returns, each record of which was handled before its commit and is accounted for: it
-- was rejected and a dead letter holds the raw message and the reason; or its job raised and a dead
-- letter holds the job and the text of the exception; or handle_job returned, and then the job has
-- just been sent and is SENT, or is FAILED with the maximum of attempts and a dead letter that
-- carries the error of its row, or has expired and is EXPIRED, or has a row that could not be
-- claimed and is unchanged, or had no attempt left.
pub consume-AllAccounted :
    (k : Worker) (msgs : List Record) (w : World)
    → w.stopped ≡ false
    → (a : IsAtLeastOnce k msgs w (consume k msgs w)) × AllAccounted k a.run
consume-AllAccounted k msgs w s =
    let a = consume-IsAtLeastOnce k msgs w s in (a, Run-AllAccounted k a.run)
