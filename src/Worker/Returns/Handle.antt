-- ===== src/Worker/Returns/Handle.antt =====
-- Why handle_job returns: from the lookup of the row to the claim.
use notification_service_kaf.Prelude.{
  ℕ, zero, suc, ◌-◌, ◌≤◌, ◌≡◌, refl, List, Option, none, some, Bool, true, false, arith, leb, min,
}
use notification_service_kaf.Schemas.{NotificationJob, NotificationDelivery, expired}
use notification_service_kaf.Deliveries.{find_row}
use notification_service_kaf.Config.{retry_delays_seconds}
use notification_service_kaf.Runtime.{World, Worker, db, timer}
use notification_service_kaf.Runtime.Monad.{Result, ok, sleep, continue, raised, of_result}
use notification_service_kaf.Runtime.Ensures.{
  Ensures, Ensures-if, Ensures-continue, Ensures-call, Ensures-ask, Ensures-weaken,
  Ensures-returned,
}
use notification_service_kaf.Worker.Repo.{get_by_job_id, stale_before, seconds}
use notification_service_kaf.Worker.Status.{mark_expired, unsent_values}
use notification_service_kaf.Worker.Timing.{
  attempts_of, expire_at, handle_expiration_if_needed, wait_send_after_if_needed, wait_until,
}
use notification_service_kaf.Worker.Retry.{attempt_with_retries, rounds}
use notification_service_kaf.Worker.Processor.{
  handle_job, should_skip, deliver_claimed, unless_expired, unless_skipped, attempt_send,
  normalize_channel, member,
}
use notification_service_kaf.Worker.Sends.{sends}
use notification_service_kaf.Worker.Returns.{
  Reason, attempted, has_expired, not_claimable, spent, Ending,
}
use notification_service_kaf.Worker.Returns.Loop.{save_status-IsSavedIn, rounds-Ending}
use notification_service_kaf.Worker.Returns.Claim.{
  Waits, skipped_row, Refusal, try_claim_job-Refusal,
}

module _ (k : Worker) (job : NotificationJob) where
  wait_until-Waits :
      (target : Option ℕ) (now : ℕ) (w u : World)
      → Waits w u
      → Ensures (λ a. Waits w) (wait_until k target now u)
  unfolding sleep
  wait_until-Waits none now w u h = h
  wait_until-Waits (some t) now w u (d, c, s) =
      Ensures-if (λ a. Waits w) (leb t now) u _ _ (λ e. (d, c, s))
        λ e.
          Ensures-if (λ a. Waits w)
            (leb (min (t - now) (seconds k.settings.max_send_delay_seconds)) 0) u _ _
            (λ f. (d, c, s)) (λ f. Ensures-call (λ a. Waits w) k timer _ u (d, omega (arith, c), s))

  abbrev Expiring : World → Bool → World → Type 0
  Expiring w true v = Reason k job w v
  Expiring w false v = Waits w v

  expire_at-Expiring :
      (o : Option NotificationDelivery) (e : Option ℕ) (w u : World)
      → job.expires_at ≡ e
      → Waits w u
      → Ensures (Expiring w) (expire_at k job o e u.clock u)
  unfolding mark_expired
  expire_at-Expiring o none w u x h = h
  expire_at-Expiring o (some e) w u x h =
      Ensures-if (Expiring w) (leb u.clock e) u _ _ (λ l. h)
        λ l.
          Ensures-continue _ (Expiring w) _ _
            (save_status-IsSavedIn k job
              (unsent_values job expired (attempts_of o) "Notification expired") u)
            λ a v ((r, f, s, t, m), g, c). has_expired e r x (ground arith) f s

  of_result_same :
      {A : Type 0} (r : Result A) (u : World) {n : ℕ}
      → n ≤ sends u
      → Ensures (λ a v. n ≤ sends v) (of_result r u)
  of_result_same (ok a) u s = s
  of_result_same (raised e) u s = tt

  loop-Reason :
      (delays : List ℕ) (w u : World) (left : ℕ)
      → sends w ≤ sends u
      → k.settings.max_attempts - attempts_of (find_row job.job_id w.deliveries) ≡ left
      → Ensures
          (λ a. Reason k job w)
          (rounds k job k.settings.max_attempts delays
            (attempt_send k)
            left
            (attempts_of (find_row job.job_id w.deliveries))
            u)
  unfolding rounds
  loop-Reason delays w u zero s e = spent (omega arith)
  loop-Reason delays w u (suc left) s e =
      let n = attempts_of (find_row job.job_id w.deliveries) in
      Ensures-weaken (λ a. Ending k job (sends w)) (λ a. Reason k job w)
        (rounds k job k.settings.max_attempts delays (attempt_send k) (suc left) n u)
        (λ a v r. attempted r) (rounds-Ending k job delays left n (sends w) u (omega (arith, e)) s)

  deliver_claimed-Reason :
      (w u : World) (b : Bool)
      → Refusal k job w b u
      → Ensures (λ a. Reason k job w) (deliver_claimed k job (find_row job.job_id w.deliveries) b u)
  unfolding attempt_with_retries
  deliver_claimed-Reason w u false (r, now, d, f, c, l, m) = not_claimable r now d (rw d f) c l m
  deliver_claimed-Reason w u true s =
      Ensures-continue (λ delays v. sends w ≤ sends v) (λ a. Reason k job w) _ _
        (of_result_same (retry_delays_seconds k.libs k.settings) u s)
        λ delays v m. loop-Reason delays w v _ m refl

  unless_expired-Reason :
      (w u : World) (b : Bool)
      → Expiring w b u
      → Ensures (λ a. Reason k job w) (unless_expired k job (find_row job.job_id w.deliveries) b u)
  unfolding wait_send_after_if_needed
  unless_expired-Reason w u true r = r
  unless_expired-Reason w u false h =
      Ensures-continue (λ a. Waits w) (λ a. Reason k job w) _ _
        (Ensures-continue (λ now. Waits w) (λ a. Waits w) _ _ h
          λ now v. wait_until-Waits job.send_after now w v)
        λ a v h'.
          Ensures-continue (Refusal k job w) (λ a. Reason k job w) _ _
            (try_claim_job-Refusal k job w v job.user_id (normalize_channel (member job.channel))
              h')
            λ b x. deliver_claimed-Reason w x b

  unless_skipped-Reason :
      (w u : World) (b : Bool)
      → should_skip k.settings.max_attempts (find_row job.job_id w.deliveries) ≡ b
      → Waits w u
      → Ensures (λ a. Reason k job w) (unless_skipped k job (find_row job.job_id w.deliveries) b u)
  unfolding handle_expiration_if_needed continue
  unless_skipped-Reason w u true e (d, c, s) =
      let (r, f, h) = skipped_row k.settings.max_attempts (stale_before w.clock) _ e in
      not_claimable r w.clock d (rw d f) h (omega arith) c
  unless_skipped-Reason w u false e h =
      Ensures-continue (Expiring w) (λ a. Reason k job w) _ _
        (expire_at-Expiring (find_row job.job_id w.deliveries) job.expires_at w u refl h)
        λ b v. unless_expired-Reason w v b

  handle_job-Ensures : (w : World) → Ensures (λ a. Reason k job w) (handle_job k job w)
  unfolding handle_job get_by_job_id
  handle_job-Ensures w =
      Ensures-continue (λ o v. (o ≡ find_row job.job_id w.deliveries) × Waits w v)
        (λ a. Reason k job w) _ _
        (Ensures-ask (λ o v. (o ≡ find_row job.job_id w.deliveries) × Waits w v) k db _ w
          (refl, (refl, omega arith, omega arith)))
        λ o v (e, h). rw e (unless_skipped-Reason w v _ refl h)

  -- Whatever the calls of the services do, handle_job returns for one of these reasons only.
  pub handle_job-Reason :
      (w : World) → (handle_job k job w).0 ≡ ok tt → Reason k job w (handle_job k job w).1
  handle_job-Reason w =
      Ensures-returned (λ a. Reason k job w) (handle_job k job w) tt (handle_job-Ensures w)
