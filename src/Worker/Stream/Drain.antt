-- ===== src/Worker/Stream/Drain.antt =====
-- A stream of records where the services work and nothing is cancelled.
use notification_service_kaf.Prelude.{
  ℕ, ◌≡◌, ◌≢◌, ◌⊎◌, inl, inr, refl, sym, ap, ◌∙◌, subst, String, List, [], ◌∷◌, some, true, false,
  All, arith, Bool, if◌then◌else◌, ◌<◌,
}
use notification_service_kaf.Schemas.{NotificationJob, sent, failed}
use notification_service_kaf.Deliveries.{find_row}
use notification_service_kaf.Config.{retry_delays_seconds}
use notification_service_kaf.Runtime.{World, Worker, DlqMessage, kafka}
use notification_service_kaf.Runtime.Monad.{Result, ok, Nothing, Action, continue, tick, call}
use notification_service_kaf.Worker.Consumer.{
  Record, consume, fetch, commit_position, handle_and_commit,
}
use notification_service_kaf.Worker.Processor.{handle_job}
use notification_service_kaf.Worker.Reliable.{IsReliable, job_letter, call-done, IsIn}
use notification_service_kaf.Worker.Attempt.{IsUncut}
use notification_service_kaf.Worker.Outcome.{IsSettled}
use notification_service_kaf.Worker.Sends.{sends}
use notification_service_kaf.Worker.Lost.{committed_after}
use notification_service_kaf.Worker.Offsets.{last_commit}
use notification_service_kaf.Worker.Delivery.{
  IsPending, IsPending-later, handle_job-IsSettled, returned_ok,
}
use notification_service_kaf.Worker.Step.Invariant.{handle_job-Frames, handle_job-find_row}
use notification_service_kaf.Worker.Stream.{
  Load, records, IsOther, IsDistinct, IsWaiting, IsFinished, IsDrained, IsAdvanced,
  IsFinished-later,
}

module _ (k : Worker) (reliable : IsReliable k) (uncut : IsUncut k) (delays : List ℕ)
    (parsed : retry_delays_seconds k.libs k.settings ≡ ok delays) where
  abbrev limit : ℕ
  limit = k.settings.max_attempts

  settled_letters :
      (job : NotificationJob) (w : World) (p : Result Nothing × World)
      → IsSettled k job limit w p
      → (x : DlqMessage) → IsIn x w.dlq
      → IsIn x p.1.dlq
  settled_letters job w p s x i = go s.ending
    where
      go :
          ((s.row.status ≡ sent) × (p.1.dlq ≡ w.dlq) × (sends w < sends p.1))
            ⊎ ((error : String) × (now : ℕ) × (s.row.status ≡ failed)
                × (s.row.attempts ≡ limit)
                × (s.row.error_message ≡ some error)
                × (p.1.dlq ≡ job_letter k job (some error) now ∷ w.dlq))
          → IsIn x p.1.dlq
      go (inl (a, e, b)) = subst (IsIn x) (sym e) i
      go (inr (error, now, a, b, c, e)) = subst (IsIn x) (sym e) (inr i)

  settled-IsFinished :
      (m : Record) (job : NotificationJob) (w : World) (p : Result Nothing × World)
      → IsSettled k job limit w p
      → IsFinished k limit p.1 (m, job)
  settled-IsFinished m job w p s = record { row = s.row; found = s.found; ending = go s.ending }
    where
      go :
          ((s.row.status ≡ sent) × (p.1.dlq ≡ w.dlq) × (sends w < sends p.1))
            ⊎ ((error : String) × (now : ℕ) × (s.row.status ≡ failed)
                × (s.row.attempts ≡ limit)
                × (s.row.error_message ≡ some error)
                × (p.1.dlq ≡ job_letter k job (some error) now ∷ w.dlq))
          → (s.row.status ≡ sent)
            ⊎ ((error : String) × (now : ℕ) × (s.row.status ≡ failed)
                × (s.row.attempts ≡ limit)
                × (s.row.error_message ≡ some error)
                × IsIn (job_letter k job (some error) now) p.1.dlq)
      go (inl (a, e, b)) = inl a
      go (inr (error, now, a, b, c, e)) =
          inr (
            error,
            now,
            a,
            b,
            c,
            subst (IsIn (job_letter k job (some error) now)) (sym e) (inl refl),
          )

  skip_if : (b : Bool) (m n : Action Nothing) (u : World) → b ≡ false → (if b then m else n) u ≡ n u
  skip_if b m n u e = rw e refl

  -- The consumer goes on behind a record that was handled and committed.
  consume-next :
      (m : Record) (ms : List Record) (w u x : World)
      → call k kafka (fetch m) w ≡ (ok tt, u)
      → u.stopped ≡ false
      → handle_and_commit k m u ≡ (ok tt, x)
      → consume k (m ∷ ms) w ≡ consume k ms x
  unfolding consume continue
  consume-next m ms w u x f s h =
      rw f (skip_if u.stopped _ _ u s ∙ ap (continue (λ a. consume k ms)) h)

  settle_one :
      (m : Record) (job : NotificationJob) (w : World)
      → w.stopped ≡ false
      → w.consumer_open ≡ true
      → IsWaiting k w (m, job)
      → (x : World) × IsAdvanced k limit m job w x
  settle_one m job w running still_open (r, e, p) =
      let u = fetch m (tick k w) in
      let s =
        handle_job-IsSettled k reliable uncut job delays parsed u
          (IsPending-later limit w.clock u.clock (find_row job.job_id w.deliveries) (omega arith) p)
          (rw e tt) in
      let v = (handle_job k job u).1 in
      let frames = handle_job-Frames k job u in
      let x = commit_position (tick k v) in
      (
        x,
        record {
          went_on = λ ms.
              consume-next m ms w u x (call-done k kafka (fetch m) w (reliable.kafka_done w.calls))
                running
                (committed_after k job reliable m r u v (returned_ok _ s.returned)
                  (frames.4 ∙ still_open));
          finished =
              IsFinished-later k limit v x (m, job) refl (λ y i. i)
                (settled-IsFinished m job u (handle_job k job u) s);
          later = omega (arith, frames.0);
          running = frames.5 ∙ running;
          still_open = frames.4 ∙ still_open;
          committed = ap some frames.3;
          others = λ j n. handle_job-find_row k job j u n;
          letters = settled_letters job u (handle_job k job u) s;
        },
      )

  later-IsWaiting :
      (m : Record) (job : NotificationJob) (w x : World) (ls : List Load)
      → IsAdvanced k limit m job w x
      → All (IsOther job) ls
      → All (IsWaiting k w) ls
      → All (IsWaiting k x) ls
  later-IsWaiting m job w x [] a o h = tt
  later-IsWaiting m job w x ((n, other) ∷ ls) a (o, os) ((r, e, p), hs) = (
    (
      r,
      e,
      subst (IsPending limit x.clock) (sym (a.others other.job_id o))
          (IsPending-later limit w.clock x.clock (find_row other.job_id w.deliveries) a.later p),
    ),
    later-IsWaiting m job w x ls a os hs,
  )

  others_away :
      (job : NotificationJob) (ls : List Load)
      → All (IsOther job) ls
      → All (λ (l : Load). l.1.job_id ≢ job.job_id) ls
  others_away job [] h = tt
  others_away job (l ∷ ls) (o, os) = (o, others_away job ls os)

  IsDrained-on :
      (m : Record) (job : NotificationJob) (ls : List Load) (w x : World)
      (p : Result Nothing × World)
      → IsAdvanced k limit m job w x
      → All (IsOther job) ls
      → IsDrained k limit ls x p
      → IsDrained k limit ((m, job) ∷ ls) w p
  IsDrained-on m job ls w x p a o d = record {
    returned = d.returned;
    finished = (
      IsFinished-later k limit x p.1 (m, job) (d.others job.job_id (others_away job ls o)) d.letters
          a.finished,
      d.finished,
    );
    committed = d.committed ∙ ap (λ c. last_commit c (records ls)) a.committed;
    others = λ j (n, ns). d.others j ns ∙ a.others j (λ e. n (sym e));
    letters = λ y i. d.letters y (a.letters y i);
  }

  consume-IsDrained :
      (ls : List Load) (w : World)
      → w.stopped ≡ false
      → w.consumer_open ≡ true
      → IsDistinct ls
      → All (IsWaiting k w) ls
      → IsDrained k limit ls w (consume k (records ls) w)
  unfolding consume
  consume-IsDrained [] w r o d h = record {
    returned = refl;
    finished = tt;
    committed = refl;
    others = λ j n. refl;
    letters = λ y i. i;
  }
  consume-IsDrained ((m, job) ∷ ls) w r o (d, ds) (h, hs) =
      let (x, a) = settle_one m job w r o h in
      rw (a.went_on (records ls)) (
        IsDrained-on m job ls w x _ a d
          (consume-IsDrained ls x a.running a.still_open ds (later-IsWaiting m job w x ls a d hs)))

  -- Where the database, Kafka and the timers work, neither SMTP nor the Auth service nor a template
  -- cancels an attempt and the retry delays parse, a running consumer with an open connection that
  -- gets a stream of records of distinct jobs, none of which expires and each of which has no row,
  -- or one that may be claimed with an attempt left, returns; in the end each job is SENT, or
  -- FAILED with exactly the maximum of attempts and a dead letter that carries the error of its
  -- row, and the committed offset is that behind the last record.
  pub consume-settles_each :
      (ls : List Load) (w : World)
      → w.stopped ≡ false
      → w.consumer_open ≡ true
      → IsDistinct ls
      → All (IsWaiting k w) ls
      → ((consume k (records ls) w).0 ≡ ok tt)
        × All (IsFinished k limit (consume k (records ls) w).1) ls
        × ((consume k (records ls) w).1.committed ≡ last_commit w.committed (records ls))
  consume-settles_each ls w r o d h =
      let all = consume-IsDrained ls w r o d h in (all.returned, all.finished, all.committed)
