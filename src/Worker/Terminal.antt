-- ===== src/Worker/Terminal.antt =====
-- A job in a terminal state is never sent again.
use notification_service_kaf.Prelude.{
  ℕ, ◌-◌, ◌≡◌, ◌≢◌, refl, Bool-cases, inl, inr, ◌⊎◌, ◌∙◌, ap, Option, some, none, Bool, true, false,
  leb, min,
}
use notification_service_kaf.Schemas.{NotificationJob, NotificationDelivery}
use notification_service_kaf.Deliveries.{find_row, is_open, claimable}
use notification_service_kaf.Runtime.{World, Worker, Outcome, done, refused, lost, db}
use notification_service_kaf.Runtime.Monad.{
  Action, Nothing, Result, ok, raised, continue, tick, ask, answer, sleep, pure,
}
use notification_service_kaf.Runtime.Views.{continue-view, if-view, call-view}
use notification_service_kaf.Worker.Repo.{stale_before, seconds, get_by_job_id, try_claim_job}
use notification_service_kaf.Worker.Quiet.{
  sent_of, handle_expiration-Quiet, wait_send_after-Quiet, try_claim_job-Quiet,
}
use notification_service_kaf.Worker.Refused.{table_of, IsRefused, try_claim_job-IsRefused}
use notification_service_kaf.Worker.Status.{mark_expired}
use notification_service_kaf.Worker.Timing.{
  handle_expiration_if_needed, expire_at, wait_send_after_if_needed, wait_until, attempts_of,
}
use notification_service_kaf.Worker.Processor.{
  handle_job, deliver_claimed, claim_and_deliver, unless_expired, unless_skipped, should_skip,
  normalize_channel, member,
}

finished_not_claimable :
    (stale : ℕ) (r : NotificationDelivery) → is_open r.status ≡ false → claimable stale r ≡ false
finished_not_claimable stale r h = rw h

module _ (k : Worker) (job : NotificationJob) where
  wait_until-table :
      (e : Option ℕ) (now : ℕ) (w : World) → table_of (wait_until k e now w).1 ≡ table_of w
  unfolding sleep
  wait_until-table none now w = refl
  wait_until-table (some target) now w = if-view table_of (leb target now) w _ _ refl (
      if-view table_of (leb (min (target - now) (seconds k.settings.max_send_delay_seconds)) 0) w _
        _ refl (call-view table_of k (λ v. refl) _ _ w (λ v. refl)))

  -- Waiting leaves the table alone.
  pub wait_send_after-table :
      (w : World) → table_of (wait_send_after_if_needed k job w).1 ≡ table_of w
  unfolding wait_send_after_if_needed
  wait_send_after-table w = continue-view table_of _ w _ refl (wait_until-table job.send_after)

  unclaimed :
      (o : Option NotificationDelivery) (u w : World) (p : Result Bool × World)
      → IsRefused w p
      → sent_of p.1 ≡ sent_of u
      → sent_of (continue (deliver_claimed k job o) p).1 ≡ sent_of u
  unfolding continue
  unclaimed o u w (ok true, v) n e = absurd (n.0 refl)
  unclaimed o u w (ok false, v) n e = e
  unclaimed o u w (raised x, v) n e = e

  module _ (r : NotificationDelivery) (finished : is_open r.status ≡ false) where
    after_wait :
        (o : Option NotificationDelivery) (u : World) (p : Result Nothing × World)
        → find_row job.job_id p.1.deliveries ≡ some r
        → sent_of p.1 ≡ sent_of u
        → sent_of
            (continue
              (λ _ w.
                continue (deliver_claimed k job o) (
                  try_claim_job k job.job_id job.user_id
                    (normalize_channel (member job.channel))
                    w))
              p).1
          ≡ sent_of u
    unfolding continue
    after_wait o u (ok x, v) e s =
        let refusal =
          try_claim_job-IsRefused k job.job_id job.user_id (normalize_channel (member job.channel))
            r v e (finished_not_claimable (stale_before v.clock) r finished) in
        unclaimed o u v _ refusal (try_claim_job-Quiet k _ _ _ v ∙ s)
    after_wait o u (raised x, v) e s = s

    claim_finished :
        (o : Option NotificationDelivery) (w : World)
        → find_row job.job_id w.deliveries ≡ some r
        → sent_of (claim_and_deliver k job o w).1 ≡ sent_of w
    claim_finished o w e =
        after_wait o w (wait_send_after_if_needed k job w)
          (ap (find_row job.job_id) (wait_send_after-table w) ∙ e) (wait_send_after-Quiet k job w)

    -- If the expiration check lets the job through, it has written nothing.
    let_through :
        (o : Option NotificationDelivery) (u : World) (p : Result Bool × World)
        → sent_of p.1 ≡ sent_of u
        → ((p.0 ≢ ok false) ⊎ (find_row job.job_id p.1.deliveries ≡ some r))
        → sent_of (continue (unless_expired k job o) p).1 ≡ sent_of u
    unfolding continue
    let_through o u (ok true, v) s h = s
    let_through o u (ok false, v) s (inl e) = absurd (e refl)
    let_through o u (ok false, v) s (inr e) = claim_finished o v e ∙ s
    let_through o u (raised x, v) s h = s

    never_false :
        (p : Result Nothing × World) → (continue {B = Bool} (λ _. pure true) p).0 ≢ ok false
    unfolding continue
    never_false (ok x, v) = λ e. cc
    never_false (raised x, v) = λ e. cc

    expire_at-cases :
        (o : Option NotificationDelivery) (e : Option ℕ) (now : ℕ) (w : World)
        → find_row job.job_id w.deliveries ≡ some r
        → ((expire_at k job o e now w).0 ≢ ok false)
          ⊎ (find_row job.job_id (expire_at k job o e now w).1.deliveries ≡ some r)
    expire_at-cases o none now w h = inr h
    expire_at-cases o (some e) now w h = elim (Bool-cases (leb now e)) [
      | inl q ↦ inr (rw q h)
      | inr q ↦ inl (rw q (never_false (mark_expired k job (attempts_of o) w)))
    ]

    handle_expiration-cases :
        (o : Option NotificationDelivery) (w : World)
        → find_row job.job_id w.deliveries ≡ some r
        → ((handle_expiration_if_needed k job o w).0 ≢ ok false)
          ⊎ (find_row job.job_id (handle_expiration_if_needed k job o w).1.deliveries ≡ some r)
    unfolding handle_expiration_if_needed continue
    handle_expiration-cases o w h = expire_at-cases o job.expires_at w.clock w h

    unless_skipped-finished :
        (o : Option NotificationDelivery) (b : Bool) (w : World)
        → find_row job.job_id w.deliveries ≡ some r
        → sent_of (unless_skipped k job o b w).1 ≡ sent_of w
    unless_skipped-finished o true w h = refl
    unless_skipped-finished o false w h =
        let_through o w (handle_expiration_if_needed k job o w) (handle_expiration-Quiet k job o w)
          (handle_expiration-cases o w h)

    -- A job whose row is SENT, FAILED or EXPIRED is never sent again, whatever the attempts in the
    -- row, the times of the job and the outcomes of the calls are.
    pub handle_job-sent_finished :
        (w : World)
        → find_row job.job_id w.deliveries ≡ some r
        → (handle_job k job w).1.sent ≡ w.sent
    unfolding handle_job get_by_job_id ask continue
    handle_job-sent_finished w h = go (k.env.outcome db w.calls)
      where
        existing : Option NotificationDelivery
        existing = find_row job.job_id w.deliveries

        rest : Option NotificationDelivery → Action Nothing
        rest o = unless_skipped k job o (should_skip k.settings.max_attempts o)

        go :
            (o : Outcome)
            → (continue rest (answer o (tick k w) (existing, tick k w))).1.sent ≡ w.sent
        go done =
            unless_skipped-finished existing (should_skip k.settings.max_attempts existing)
              (tick k w) h
        go (refused e) = refl
        go (lost e) = refl
