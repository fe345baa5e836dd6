-- ===== src/Worker/Outcome.antt =====
-- How the retry loop ends where the database, Kafka and the timers work.
use notification_service_kaf.Prelude.{
  ℕ, zero, suc, ◌+◌, ◌-◌, ◌≤◌, ◌<◌, ◌≡◌, refl, ap, ◌∙◌, String, some, true, false, List, ◌∷◌, ◌⊎◌,
  inl, inr, arith, leb, le→leb, lt→leb,
}
use notification_service_kaf.Schemas.{NotificationJob, NotificationDelivery, sent, failed, retrying}
use notification_service_kaf.Deliveries.{find_row}
use notification_service_kaf.Deliveries.Frame.{find_row-upsert, saved_over, saved_over-fields}
use notification_service_kaf.Runtime.{Exc, exc_text, World, Worker}
use notification_service_kaf.Runtime.Monad.{
  Result, ok, raised, Action, Nothing, continue, recover, tick,
}
use notification_service_kaf.Worker.Repo.{write_status}
use notification_service_kaf.Worker.Dlq.{enqueue_dlq}
use notification_service_kaf.Worker.Status.{mark_sent, sent_values, unsent_values, failure_status}
use notification_service_kaf.Worker.Retry.{
  get_retry_delay, rounds, on_failure, after_failure, attempt_with_retries,
}
use notification_service_kaf.Worker.Attempt.{IsAttempt}
use notification_service_kaf.Worker.Sends.{sends}
use notification_service_kaf.Worker.Reliable.{
  IsReliable, job_letter, mark_sent-done, mark_failure-done, publish_job-done, sleep-done,
}

-- The loop has ended, from the dead letters `letters`: it returned, and the job's row is SENT with
-- no new dead letter, or FAILED at the last attempt, with one that carries the row's error.
pub record IsSettled (k : Worker) (job : NotificationJob) (limit : ℕ) (w : World)
    (p : Result Nothing × World) : Type 0 where
  pub returned : p.0 ≡ ok tt
  pub row : NotificationDelivery
  pub found : find_row job.job_id p.1.deliveries ≡ some row
  pub bounded : row.attempts ≤ limit
  pub ending :
      ((row.status ≡ sent) × (p.1.dlq ≡ w.dlq) × (sends w < sends p.1))
      ⊎ ((error : String) × (now : ℕ) × (row.status ≡ failed)
          × (row.attempts ≡ limit)
          × (row.error_message ≡ some error)
          × (p.1.dlq ≡ job_letter k job (some error) now ∷ w.dlq))

module _ (k : Worker) (job : NotificationJob) (limit : ℕ) where
  sent_ending :
      (n : ℕ) (w v : World)
      → n ≤ limit
      → v.dlq ≡ w.dlq
      → sends w < sends v
      → IsSettled k job limit w (ok tt, write_status k (sent_values job n v.clock) (tick k v))
  sent_ending n w v h e more =
      let s = sent_values job n v.clock in
      let stamp = k.env.db_now (tick k v).calls in
      let o = find_row job.job_id v.deliveries in
      let fields = saved_over-fields s stamp o in
      record {
        returned = refl;
        row = saved_over s stamp o;
        found = find_row-upsert s stamp v.deliveries;
        bounded = rw fields.1 h;
        ending = inl (fields.0, e, more);
      }

  failed_ending :
      (error : String) (now : ℕ) (w v u : World)
      → v.dlq ≡ w.dlq
      → u ≡ write_status k (unsent_values job failed limit error) (tick k v)
      → IsSettled k job limit w (ok tt, enqueue_dlq (job_letter k job (some error) now) (tick k u))
  failed_ending error now w v u e h =
      let s = unsent_values job failed limit error in
      let stamp = k.env.db_now (tick k v).calls in
      let o = find_row job.job_id v.deliveries in
      let fields = saved_over-fields s stamp o in
      record {
        returned = refl;
        row = saved_over s stamp o;
        found =
            ap (λ (x : World). find_row job.job_id x.deliveries) h
            ∙ find_row-upsert s stamp v.deliveries;
        bounded = rw fields.1 (omega arith);
        ending = inr (
          error,
          now,
          fields.0,
          fields.1,
          fields.2,
          ap (λ (x : World). job_letter k job (some error) now ∷ x.dlq) h
              ∙ ap (◌∷◌ (job_letter k job (some error) now)) e,
        );
      }

  -- What went before does not matter to the ending, but for its dead letters and what it sent.
  pub IsSettled-from :
      (w v : World) (p : Result Nothing × World)
      → v.dlq ≡ w.dlq
      → sends w ≤ sends v
      → IsSettled k job limit v p
      → IsSettled k job limit w p
  IsSettled-from w v p e le s = record {
    returned = s.returned;
    row = s.row;
    found = s.found;
    bounded = s.bounded;
    ending = ground arith;
  }

module _ (k : Worker) (job : NotificationJob) (limit : ℕ) (reliable : IsReliable k) where
  open_failure :
      (delays : List ℕ) (fn : NotificationJob → Action Nothing) (n : ℕ) (again : Action Nothing)
      (exc : Exc) (v : World)
      → on_failure k job limit delays fn n again exc v
        ≡ after_failure k job limit delays fn n again (exc_text exc) (leb limit n) (
            write_status k
              (unsent_values job (failure_status (leb limit n)) n (exc_text exc))
              (tick k v))
  unfolding continue
  open_failure delays fn n again exc v =
      rw (mark_failure-done k reliable job n (exc_text exc) (leb limit n) v)

  module _ (delays : List ℕ) (fn : NotificationJob → Action Nothing) where
    last_failure :
        (n : ℕ) (again : Action Nothing) (exc : Exc) (w v : World)
        → limit ≡ n
        → v.dlq ≡ w.dlq
        → IsSettled k job limit w (on_failure k job limit delays fn n again exc v)
    last_failure n again exc w v l e =
        let b : leb limit n ≡ true = le→leb limit n (omega arith) in
        rw
          (
            open_failure delays fn n again exc v,
            b,
            publish_job-done k reliable job (some (exc_text exc))
                (write_status k (unsent_values job failed n (exc_text exc)) (tick k v)),
          )
          (rw (← l) (failed_ending k job limit (exc_text exc) _ w v _ e refl))

    early_failure :
        (n : ℕ) (again : Action Nothing) (exc : Exc) (w v : World)
        → n < limit
        → v.dlq ≡ w.dlq
        → sends w ≤ sends v
        → ((u : World) → IsSettled k job limit u (again u))
        → IsSettled k job limit w (on_failure k job limit delays fn n again exc v)
    unfolding continue
    early_failure n again exc w v l e le h =
        let b : leb limit n ≡ false = lt→leb limit n l in
        rw
          (
            open_failure delays fn n again exc v,
            b,
            sleep-done k reliable (get_retry_delay n delays)
                (write_status k (unsent_values job retrying n (exc_text exc)) (tick k v)),
          )
          (IsSettled-from k job limit w _ _ e le (h _))

    -- One round, by what the attempt has done.
    after_attempt :
        (left n : ℕ) (again : Action Nothing) (w : World) (p : Result Nothing × World)
        → n + left ≡ limit
        → IsAttempt w p
        → ((u : World) → n < limit → IsSettled k job limit u (again u))
        → IsSettled k job limit w (
            recover
              (on_failure k job limit delays fn n again)
              (continue (λ _. mark_sent k job n) p))
    unfolding continue recover
    after_attempt left n again w (ok u, v) l a h =
        rw (mark_sent-done k reliable job n v)
          (sent_ending k job limit n w v (omega arith) a.same_dlq (a.delivered refl))
    after_attempt zero n again w (raised x, v) l a h =
        rw a.uncancelled (last_failure n again x w v (omega arith) a.same_dlq)
    after_attempt (suc left) n again w (raised x, v) l a h =
        let lt : n < limit = omega arith in
        rw a.uncancelled (early_failure n again x w v lt a.same_dlq a.kept (λ u. h u lt))

    module _ (attempts : (w : World) → IsAttempt w (fn job w)) where
      rounds-IsSettled :
          (left n : ℕ) (w : World)
          → n + suc left ≡ limit
          → IsSettled k job limit w (rounds k job limit delays fn (suc left) n w)
      unfolding rounds
      rounds-IsSettled zero n w l =
          after_attempt zero (suc n) _ w (fn job w) (omega arith) (attempts w)
            (λ u lt. absurd (omega arith))
      rounds-IsSettled (suc left) n w l =
          after_attempt (suc left) (suc n) _ w (fn job w) (omega arith) (attempts w)
            (λ u lt. rounds-IsSettled left (suc n) u (omega arith))

      -- Where the database, Kafka and the timers work, and the send function is never cancelled,
      -- buries nothing itself and sends a notification whenever it returns, the retry loop returns
      -- from every attempt count below the limit; the row of the job is then SENT with a
      -- notification sent and no new dead letter, or FAILED with exactly the maximum of attempts
      -- and one dead letter that carries the error of the row.
      pub attempt_with_retries-IsSettled :
          (n : ℕ) (w : World)
          → n < limit
          → IsSettled k job limit w (attempt_with_retries k job limit delays fn n w)
      unfolding attempt_with_retries
      attempt_with_retries-IsSettled n w h =
          let e : limit - n ≡ suc (limit - n - 1) = omega arith in
          rw e (rounds-IsSettled (limit - n - 1) n w (omega arith))
