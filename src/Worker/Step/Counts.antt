-- ===== src/Worker/Step/Counts.antt =====
-- The attempts in the rows of the table `notification_delivery`.
use notification_service_kaf.Prelude.{
  ℕ, ◌≡◌, ◌≤◌, String, [], ◌∷◌, All, true, Bool-cases, inl, inr, arith, ◌==◌,
}
use notification_service_kaf.Schemas.{
  NotificationJob, NotificationDelivery, NotificationStatus, processing, sent, failed, retrying,
  expired,
}
use notification_service_kaf.Deliveries.{
  Table, Saved, insert_claim, update_claim, upsert, claimable, is_open,
}
use notification_service_kaf.Runtime.{World, Worker}
use notification_service_kaf.Runtime.Trace.{Steps-keep}
use notification_service_kaf.Worker.Processor.{handle_job}
use notification_service_kaf.Worker.Step.{
  Step, passed, slept, inserted, updated, wrote, delivered, buried, IsCounted,
}
use notification_service_kaf.Worker.Step.Handle.{handle_job-Steps}

-- The attempts of the row belong to its status.
abbrev pub IsCountedRow : ℕ → NotificationDelivery → Type 0
IsCountedRow limit r = IsCounted limit r.status r.attempts

module _ (limit : ℕ) where
  open_IsCounted :
      (s : NotificationStatus) (n : ℕ) → is_open s ≡ true → IsCounted limit s n → n ≤ limit
  open_IsCounted processing n o c = c
  open_IsCounted retrying n o c = omega (arith, c.0, c.1)
  open_IsCounted sent n o c = absurd (cc)
  open_IsCounted failed n o c = absurd (cc)
  open_IsCounted expired n o c = absurd (cc)

  upsert-All :
      (s : Saved) (stamp : ℕ) (t : Table)
      → IsCounted limit s.status s.attempts
      → All (IsCountedRow limit) t
      → All (IsCountedRow limit) (upsert s stamp t)
  unfolding upsert
  upsert-All s stamp [] c h = (c, tt)
  upsert-All s stamp (r ∷ t) c (d, h) = elim (Bool-cases (r.job_id == s.job_id)) [
    | inl e ↦ rw e (c, h)
    | inr e ↦ rw e (d, upsert-All s stamp t c h)
  ]

  insert_claim-All :
      (j user : ℕ) (channel : String) (now stamp : ℕ) (t : Table)
      → All (IsCountedRow limit) t
      → All (IsCountedRow limit) (insert_claim j user channel now stamp t).0
  unfolding insert_claim
  insert_claim-All j user channel now stamp [] h = (omega arith, tt)
  insert_claim-All j user channel now stamp (r ∷ t) (d, h) = elim (Bool-cases (r.job_id == j)) [
    | inl e ↦ rw e (d, h)
    | inr e ↦ rw e (d, insert_claim-All j user channel now stamp t h)
  ]

  update_claim-All :
      (j now stale stamp : ℕ) (t : Table)
      → All (IsCountedRow limit) t
      → All (IsCountedRow limit) (update_claim j now stale stamp t).0
  unfolding update_claim
  update_claim-All j now stale stamp [] h = tt
  update_claim-All j now stale stamp (r ∷ t) (d, h) = elim (Bool-cases (r.job_id == j)) [
    | inl e ↦ elim (Bool-cases (claimable stale r)) [
      | inl f ↦
          let o : is_open r.status ≡ true = ground arith in
          let l = open_IsCounted r.status r.attempts o d in rw (e, f) (l, h)
      | inr f ↦ rw (e, f) (d, h)
    ]
    | inr e ↦ rw e (d, update_claim-All j now stale stamp t h)
  ]

Step-All :
    (k : Worker) (job : NotificationJob) {u v : World}
    → Step k job u v
    → All (IsCountedRow k.settings.max_attempts) u.deliveries
    → All (IsCountedRow k.settings.max_attempts) v.deliveries
Step-All k job (passed w) h = h
Step-All k job (slept d w) h = h
Step-All k job (inserted channel now w c) h =
    insert_claim-All k.settings.max_attempts _ _ channel now _ w.deliveries h
Step-All k job (updated now stale w) h =
    update_claim-All k.settings.max_attempts _ now stale _ w.deliveries h
Step-All k job (wrote s w r) h = upsert-All k.settings.max_attempts s _ w.deliveries r.counted h
Step-All k job (delivered n w) h = h
Step-All k job (buried m w) h = h

-- If in the delivery table the attempts of every SENT row are from 1 to the maximum, of every
-- RETRYING row from 1 to below the maximum, of every FAILED row exactly the maximum and of every
-- PROCESSING row at most the maximum, the same holds behind handle_job, however it ends and
-- wherever it is cut off by a cancellation.
pub handle_job-IsCounted :
    (k : Worker) (job : NotificationJob) (w : World)
    → All (IsCountedRow k.settings.max_attempts) w.deliveries
    → All (IsCountedRow k.settings.max_attempts) (handle_job k job w).1.deliveries
handle_job-IsCounted k job w =
    Steps-keep (λ v. All (IsCountedRow k.settings.max_attempts) v.deliveries)
      (λ a b s. Step-All k job {u = a} {v = b} s) (handle_job-Steps k job w)
