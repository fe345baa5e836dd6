-- ===== src/Worker/Step/Invariant.antt =====
-- What every step keeps of the table `notification_delivery`, and so every run of handle_job.
use notification_service_kaf.Prelude.{
  ℕ, ◌≡◌, refl, ◌∙◌, ◌≢◌, ◌≤◌, [], ◌∷◌, none, All, arith, String,
}
use notification_service_kaf.Schemas.{NotificationJob, NotificationDelivery}
use notification_service_kaf.Deliveries.{Table, find_row, Saved, insert_claim, update_claim, upsert}
use notification_service_kaf.Deliveries.Keys.{
  IsKeyed, upsert-IsKeyed, insert_claim-IsKeyed, update_claim-IsKeyed,
}
use notification_service_kaf.Deliveries.Frame.{
  find_row-upsert_ne, find_row-insert_claim_ne, find_row-update_claim_ne,
}
use notification_service_kaf.Runtime.{World, Worker}
use notification_service_kaf.Runtime.Trace.{Steps-keep}
use notification_service_kaf.Worker.Processor.{handle_job}
use notification_service_kaf.Worker.Step.{
  Step, passed, slept, inserted, updated, wrote, delivered, buried, IsConsistent,
}
use notification_service_kaf.Worker.Step.Handle.{handle_job-Steps}

abbrev pub IsTidyRow : NotificationDelivery → Type 0
IsTidyRow r = IsConsistent r.status r.processing_started_at r.sent_at r.error_message

-- The columns of every row fit its status.
abbrev pub IsTidy : Table → Type 0
IsTidy = All IsTidyRow

upsert-IsTidy :
    (s : Saved) (stamp : ℕ) (t : Table)
    → IsConsistent s.status none s.sent_at s.error_message
    → IsTidy t
    → IsTidy (upsert s stamp t)
unfolding upsert
upsert-IsTidy s stamp [] c h = (c, tt)
upsert-IsTidy s stamp (r ∷ t) c h = ground (arith, upsert-IsTidy s stamp t c h.1)

insert_claim-IsTidy :
    (j user : ℕ) (channel : String) (now stamp : ℕ) (t : Table)
    → IsTidy t
    → IsTidy (insert_claim j user channel now stamp t).0
unfolding insert_claim
insert_claim-IsTidy j user channel now stamp [] h = ground arith
insert_claim-IsTidy j user channel now stamp (r ∷ t) h =
    ground (arith, insert_claim-IsTidy j user channel now stamp t h.1)

update_claim-IsTidy :
    (j now stale stamp : ℕ) (t : Table) → IsTidy t → IsTidy (update_claim j now stale stamp t).0
unfolding update_claim
update_claim-IsTidy j now stale stamp [] h = tt
update_claim-IsTidy j now stale stamp (r ∷ t) h =
    ground (arith, update_claim-IsTidy j now stale stamp t h.1)

-- job_id is a key, and the columns of every row fit its status.
abbrev pub IsSound : World → Type 0
IsSound w = IsKeyed w.deliveries × IsTidy w.deliveries

module _ (k : Worker) (job : NotificationJob) where
  Step-IsSound : {u v : World} → Step k job u v → IsSound u → IsSound v
  Step-IsSound (passed w) h = h
  Step-IsSound (slept d w) h = h
  Step-IsSound (inserted channel now w c) h = (
    insert_claim-IsKeyed _ _ channel now _ w.deliveries h.0,
    insert_claim-IsTidy _ _ channel now _ w.deliveries h.1,
  )
  Step-IsSound (updated now stale w) h = (
    update_claim-IsKeyed _ now stale _ w.deliveries h.0,
    update_claim-IsTidy _ now stale _ w.deliveries h.1,
  )
  Step-IsSound (wrote s w r) h =
      (upsert-IsKeyed s _ w.deliveries h.0, upsert-IsTidy s _ w.deliveries r.consistent h.1)
  Step-IsSound (delivered n w) h = h
  Step-IsSound (buried m w) h = h

  Step-find_row :
      (i : ℕ)
      → i ≢ job.job_id
      → {u v : World} → Step k job u v
      → find_row i v.deliveries ≡ find_row i u.deliveries
  Step-find_row i h (passed w) = refl
  Step-find_row i h (slept d w) = refl
  Step-find_row i h (inserted channel now w c) =
      find_row-insert_claim_ne i _ _ channel now _ w.deliveries h
  Step-find_row i h (updated now stale w) = find_row-update_claim_ne i _ now stale _ w.deliveries h
  Step-find_row i h (wrote s w r) = find_row-upsert_ne i s _ w.deliveries (ground arith)
  Step-find_row i h (delivered n w) = refl
  Step-find_row i h (buried m w) = refl

  -- What a step leaves alone outside the deliveries, and time.
  abbrev pub Frames : World → World → Type 0
  Frames u v =
      (u.clock ≤ v.clock)
      × (v.templates ≡ u.templates)
      × (v.committed ≡ u.committed)
      × (v.position ≡ u.position)
      × (v.consumer_open ≡ u.consumer_open)
      × (v.stopped ≡ u.stopped)
      × (v.ready ≡ u.ready)

  Step-Frames : {u v : World} → Step k job u v → Frames u v
  Step-Frames (passed w) = ground arith
  Step-Frames (slept d w) = ground arith
  Step-Frames (inserted channel now w c) = ground arith
  Step-Frames (updated now stale w) = ground arith
  Step-Frames (wrote s w r) = ground arith
  Step-Frames (delivered n w) = ground arith
  Step-Frames (buried m w) = ground arith

  Frames-trans : (u v w : World) → Frames u v → Frames v w → Frames u w
  Frames-trans u v w a b = ground arith

  -- If job_id is a key of the delivery table, and the claim instant, the sent instant and the error
  -- text of every row fit its status, the same holds behind handle_job, whatever the calls of the
  -- services do, however it ends and wherever it is cut off by a cancellation.
  pub handle_job-IsSound : (w : World) → IsSound w → IsSound (handle_job k job w).1
  handle_job-IsSound w =
      Steps-keep IsSound (λ a b s. Step-IsSound {u = a} {v = b} s) (handle_job-Steps k job w)

  -- handle_job leaves the delivery row of every other job as it was, however it ends.
  pub handle_job-find_row :
      (i : ℕ) (w : World)
      → i ≢ job.job_id
      → find_row i (handle_job k job w).1.deliveries ≡ find_row i w.deliveries
  handle_job-find_row i w h =
      Steps-keep (λ v. find_row i v.deliveries ≡ find_row i w.deliveries)
        (λ a b s p. Step-find_row i h {u = a} {v = b} s ∙ p) (handle_job-Steps k job w) refl

  -- It changes neither the templates nor the consumer nor the ready marker, and the clock does not go back.
  pub handle_job-Frames : (w : World) → Frames w (handle_job k job w).1
  handle_job-Frames w =
      Steps-keep (Frames w) (λ a b s p. Frames-trans w a b p (Step-Frames {u = a} {v = b} s))
        (handle_job-Steps k job w) (ground arith)
