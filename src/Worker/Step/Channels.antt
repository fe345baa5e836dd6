-- ===== src/Worker/Step/Channels.antt =====
-- The channel column of the table `notification_delivery`: a text without a CHECK, which the workers
-- keep within the enum.
use notification_service_kaf.Prelude.{ℕ, String, [], ◌∷◌, All, Bool-cases, inl, inr, ◌==◌}
use notification_service_kaf.Schemas.{NotificationJob, NotificationDelivery}
use notification_service_kaf.Deliveries.{
  Table, Saved, insert_claim, update_claim, upsert, claimable,
}
use notification_service_kaf.Runtime.{World, Worker}
use notification_service_kaf.Runtime.Trace.{Steps-keep}
use notification_service_kaf.Worker.Step.{
  Step, passed, slept, inserted, updated, wrote, delivered, buried, IsChannel,
}
use notification_service_kaf.Worker.Step.Handle.{handle_job-Steps}
use notification_service_kaf.Worker.Processor.{handle_job}

abbrev pub HasChannel : NotificationDelivery → Type 0
HasChannel r = IsChannel r.channel

upsert-All :
    (s : Saved) (stamp : ℕ) (t : Table)
    → IsChannel s.channel
    → All HasChannel t
    → All HasChannel (upsert s stamp t)
unfolding upsert
upsert-All s stamp [] c h = (c, tt)
upsert-All s stamp (r ∷ t) c (d, h) = elim (Bool-cases (r.job_id == s.job_id)) [
  | inl e ↦ rw e (d, h)
  | inr e ↦ rw e (d, upsert-All s stamp t c h)
]

insert_claim-All :
    (j user : ℕ) (channel : String) (now stamp : ℕ) (t : Table)
    → IsChannel channel
    → All HasChannel t
    → All HasChannel (insert_claim j user channel now stamp t).0
unfolding insert_claim
insert_claim-All j user channel now stamp [] c h = (c, tt)
insert_claim-All j user channel now stamp (r ∷ t) c (d, h) = elim (Bool-cases (r.job_id == j)) [
  | inl e ↦ rw e (d, h)
  | inr e ↦ rw e (d, insert_claim-All j user channel now stamp t c h)
]

update_claim-All :
    (j now stale stamp : ℕ) (t : Table)
    → All HasChannel t
    → All HasChannel (update_claim j now stale stamp t).0
unfolding update_claim
update_claim-All j now stale stamp [] h = tt
update_claim-All j now stale stamp (r ∷ t) (d, h) = elim (Bool-cases (r.job_id == j)) [
  | inl e ↦ elim (Bool-cases (claimable stale r)) [
    | inl f ↦ rw (e, f) (d, h)
    | inr f ↦ rw (e, f) (d, h)
  ]
  | inr e ↦ rw e (d, update_claim-All j now stale stamp t h)
]

Step-All :
    (k : Worker) (job : NotificationJob) {u v : World}
    → Step k job u v
    → All HasChannel u.deliveries
    → All HasChannel v.deliveries
Step-All k job (passed w) h = h
Step-All k job (slept d w) h = h
Step-All k job (inserted channel now w c) h = insert_claim-All _ _ channel now _ w.deliveries c h
Step-All k job (updated now stale w) h = update_claim-All _ now stale _ w.deliveries h
Step-All k job (wrote s w r) h = upsert-All s _ w.deliveries r.in_enum h
Step-All k job (delivered n w) h = h
Step-All k job (buried m w) h = h

-- If the channel of every row of the delivery table is the text of a channel of the enum, the same
-- holds behind handle_job, however it ends and wherever it is cut off by a cancellation.
pub handle_job-HasChannel :
    (k : Worker) (job : NotificationJob) (w : World)
    → All HasChannel w.deliveries
    → All HasChannel (handle_job k job w).1.deliveries
handle_job-HasChannel k job w =
    Steps-keep (λ v. All HasChannel v.deliveries) (λ a b s. Step-All k job {u = a} {v = b} s)
      (handle_job-Steps k job w)
