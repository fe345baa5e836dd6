-- ===== src/Worker/Lost.antt =====
-- Jobs that the worker acknowledges to Kafka without sending them, burying them or finishing them.
use notification_service_kaf.Prelude.{
  ℕ, ◌-◌, ◌≤◌, ◌≡◌, refl, ap, ◌∙◌, sym, some, none, Bool, true, false, List, arith, ge→ltb,
  if◌then◌else◌,
}
use notification_service_kaf.Schemas.{NotificationJob, NotificationDelivery, processing, Json}
use notification_service_kaf.Deliveries.{find_row, is_open, claimable}
use notification_service_kaf.Config.{retry_delays_seconds}
use notification_service_kaf.Runtime.{World, Worker, kafka, runtime_error, done}
use notification_service_kaf.Runtime.Monad.{
  Nothing, Result, ok, raised, continue, recover, tick, call, raise,
}
use notification_service_kaf.Worker.Repo.{stale_before, try_claim_job}
use notification_service_kaf.Worker.Timing.{handle_expiration_if_needed, wait_send_after_if_needed}
use notification_service_kaf.Worker.Retry.{attempt_with_retries, rounds}
use notification_service_kaf.Worker.Processor.{
  handle_job, should_skip, deliver_claimed, normalize_channel, member,
}
use notification_service_kaf.Worker.Consumer.{
  Record, handle_message, handle_and_commit, commit_message, commit_position,
}
use notification_service_kaf.Worker.Step.Invariant.{handle_job-Frames}
use notification_service_kaf.Worker.Reliable.{IsReliable, call-done, get_by_job_id-done}
use notification_service_kaf.Worker.Claiming.{IsClaim, try_claim_job-free, try_claim_job-held}

-- A job with no expiry and no delay whose row is open goes straight to the claim.
pub record IsImmediate (job : NotificationJob) : Type 0 where
  pub no_expiry : job.expires_at ≡ none
  pub no_delay : job.send_after ≡ none

pub open_not_skipped :
    (limit : ℕ) (r : NotificationDelivery)
    → is_open r.status ≡ true
    → should_skip limit (some r) ≡ false
unfolding should_skip
open_not_skipped limit r h = ground arith

module _ (k : Worker) (job : NotificationJob) (reliable : IsReliable k) (direct : IsImmediate job)
    (r : NotificationDelivery) (still_open : is_open r.status ≡ true) where
  straight_to_claim :
      (w : World)
      → find_row job.job_id w.deliveries ≡ some r
      → handle_job k job w
        ≡ continue (deliver_claimed k job (some r)) (
            try_claim_job k job.job_id job.user_id
              (normalize_channel (member job.channel))
              (tick k w))
  unfolding handle_job handle_expiration_if_needed wait_send_after_if_needed continue
  straight_to_claim w h = rw (
    get_by_job_id-done k reliable job.job_id w,
    h,
    open_not_skipped k.settings.max_attempts r still_open,
    direct.no_expiry,
    direct.no_delay,
  )

-- A record of this job.
pub record IsRecordOf (k : Worker) (job : NotificationJob) (msg : Record) : Type 0 where
  pub raw : List ℕ
  pub carried : msg.raw_value ≡ some raw
  pub payload : Json
  pub loaded : k.libs.loads raw ≡ some payload
  pub valid : k.libs.validate payload ≡ some job

pub commit_message-done :
    (k : Worker)
    → ((n : ℕ) → k.env.outcome kafka n ≡ done)
    → (v : World) → v.consumer_open ≡ true
    → commit_message k v ≡ (ok tt, commit_position (tick k v))
unfolding commit_message continue
commit_message-done k works v o = go v.consumer_open o
  where
    go :
        (b : Bool)
        → b ≡ true
        → (if b
              then call k kafka commit_position
              else raise (runtime_error "Kafka consumer is not initialized"))
            v
          ≡ (ok tt, commit_position (tick k v))
    go true e = call-done k kafka commit_position v (works v.calls)
    go false e = absurd (cc)

-- A record whose job returns is committed.
pub committed_after :
    (k : Worker) (job : NotificationJob) (reliable : IsReliable k) (msg : Record)
    → IsRecordOf k job msg
    → (w v : World) → handle_job k job w ≡ (ok tt, v)
    → v.consumer_open ≡ true
    → handle_and_commit k msg w ≡ (ok tt, commit_position (tick k v))
unfolding handle_message continue recover
committed_after k job reliable msg m w v h o =
    rw (m.carried, m.loaded, m.valid, h) (commit_message-done k reliable.kafka_done v o)

-- No attempt is left: the loop does nothing.
spent_run :
    (k : Worker) (job : NotificationJob) (r s : NotificationDelivery) (delays : List ℕ) (w : World)
    (c : Result Bool × World)
    → k.settings.max_attempts ≤ r.attempts
    → retry_delays_seconds k.libs k.settings ≡ ok delays
    → IsClaim job.job_id w true s c
    → continue (deliver_claimed k job (some r)) c ≡ (ok tt, c.1)
unfolding continue attempt_with_retries rounds
spent_run k job r s delays w (ok true, v) h e claim =
    let none_left : k.settings.max_attempts - r.attempts ≡ 0 = omega arith in rw (e, none_left)
spent_run k job r s delays w (ok false, v) h e claim = absurd (cc claim.answered)
spent_run k job r s delays w (raised x, v) h e claim = absurd (cc claim.answered)

-- What the worker does with a record of which nothing comes: it returns, commits the offset, and has
-- sent and buried nothing.
pub record IsDropped (w : World) (p : Result Nothing × World) : Type 0 where
  pub returned : p.0 ≡ ok tt
  pub acknowledged : p.1.committed ≡ some w.position
  pub unsent : p.1.sent ≡ w.sent
  pub unburied : p.1.dlq ≡ w.dlq

module _ (k : Worker) (job : NotificationJob) (reliable : IsReliable k) (direct : IsImmediate job)
    (msg : Record) (m : IsRecordOf k job msg) (r : NotificationDelivery) (w : World)
    (running : w.consumer_open ≡ true) (found : find_row job.job_id w.deliveries ≡ some r) where
  -- Where the services work and the consumer is open, a record of a job with no expiry and no
  -- delay, whose row is PROCESSING since an instant that is not yet stale, is dropped: handling
  -- returns, the offset is committed, nothing is sent or buried, and the table stays as it was.
  pub processing-IsDropped :
      (t : ℕ)
      → r.status ≡ processing
      → r.processing_started_at ≡ some t
      → stale_before (tick k w).clock ≤ t
      → IsDropped w (handle_and_commit k msg w)
        × ((handle_and_commit k msg w).1.deliveries ≡ w.deliveries)
  unfolding continue
  processing-IsDropped t p s fresh =
      let held : claimable (stale_before (tick k w).clock) r ≡ false =
        rw (p, s) (ge→ltb t (stale_before (tick k w).clock) fresh) in
      let stays =
        straight_to_claim k job reliable direct r (rw p) w found
        ∙ ap (continue (deliver_claimed k job (some r))) (
            try_claim_job-held k job.job_id job.user_id (normalize_channel (member job.channel))
              reliable r (tick k w) found held) in
      rw (committed_after k job reliable msg m w _ stays running)
        (record { returned = refl; acknowledged = refl; unsent = refl; unburied = refl }, refl)

  -- Where the services work, the consumer is open and the retry delays parse, a record of a job
  -- with no expiry and no delay, whose row is open, claimable and has at least the maximum of
  -- attempts, is dropped: the offset is committed, nothing is sent or buried, and its row is left
  -- PROCESSING with the same attempts.
  pub exhausted-IsDropped :
      (delays : List ℕ)
      → is_open r.status ≡ true
      → claimable (stale_before (tick k w).clock) r ≡ true
      → k.settings.max_attempts ≤ r.attempts
      → retry_delays_seconds k.libs k.settings ≡ ok delays
      → IsDropped w (handle_and_commit k msg w)
        × (s : NotificationDelivery) × (find_row job.job_id (handle_and_commit k msg w).1.deliveries
            ≡ some s)
        × (s.status ≡ processing)
        × (s.attempts ≡ r.attempts)
  exhausted-IsDropped delays p c spent parsed =
      let claim =
        try_claim_job-free k job.job_id job.user_id (normalize_channel (member job.channel))
          reliable r (tick k w) found c in
      let run =
        straight_to_claim k job reliable direct r p w found
        ∙ spent_run k job r _ delays (tick k w) _ spent parsed claim in
      let frames = handle_job-Frames k job w in
      let after = ap (λ (x : Result Nothing × World). x.1) run in
      rw
        (committed_after k job reliable msg m w _ run
          (sym (ap (λ (x : World). x.consumer_open) after) ∙ frames.4 ∙ running))
        (
          record {
            returned = refl;
            acknowledged = ap some (sym (ap (λ (x : World). x.position) after) ∙ frames.3);
            unsent = claim.same_sent;
            unburied = claim.same_dlq;
          },
          _,
          claim.found,
          refl,
          refl,
        )
