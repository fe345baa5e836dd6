-- ===== src/Worker/Returns/Claim.antt =====
-- What a claim that is refused says of the row, whatever the calls of the services do.
use notification_service_kaf.Prelude.{
  ℕ, ◌≤◌, ◌≡◌, inl, inr, refl, ap, ◌∙◌, String, List, Option, none, some, Bool, true, false, arith,
  Bool-cases,
}
use notification_service_kaf.Schemas.{NotificationJob, NotificationDelivery}
use notification_service_kaf.Deliveries.{find_row, claimable, update_claim}
use notification_service_kaf.Deliveries.Claim.{
  insert_claim_new, insert_claim_old, update_claim_free, update_claim_held,
}
use notification_service_kaf.Runtime.{World, Worker, db}
use notification_service_kaf.Runtime.Monad.{tick, continue}
use notification_service_kaf.Runtime.Ensures.{Ensures, Ensures-continue, Ensures-ask}
use notification_service_kaf.Worker.Repo.{
  try_claim_job, stale_before, try_insert, try_update, claim_by_update,
}
use notification_service_kaf.Worker.Processor.{should_skip}
use notification_service_kaf.Worker.Sends.{sends}

-- Time may have passed; the deliveries are the same, and nothing that was sent is gone.
abbrev pub Waits : World → World → Type 0
Waits w v = (v.deliveries ≡ w.deliveries) × (w.clock ≤ v.clock) × (sends w ≤ sends v)

pub skipped_row :
    (limit stale : ℕ) (o : Option NotificationDelivery)
    → should_skip limit o ≡ true
    → (r : NotificationDelivery) × (o ≡ some r) × (claimable stale r ≡ false)
unfolding should_skip
skipped_row limit stale none h = absurd (cc)
skipped_row limit stale (some r) h = (r, refl, ground arith)

-- The UPDATE reports no claim: the table is the same, and its row of the job is not claimable.
not_updated :
    (j now stale stamp : ℕ) (t : List NotificationDelivery) (r : NotificationDelivery)
    → find_row j t ≡ some r
    → (update_claim j now stale stamp t).1 ≡ false
    → ((update_claim j now stale stamp t).0 ≡ t) × (claimable stale r ≡ false)
not_updated j now stale stamp t r f u = elim (Bool-cases (claimable stale r)) [
  | inl c ↦ absurd (cc (u, (update_claim_free j now stale stamp t r f c).0))
  | inr c ↦ (
    ap (λ (p : List NotificationDelivery × Bool). p.0)
        (update_claim_held j now stale stamp t r f c),
    c,
  )
]

module _ (k : Worker) (job : NotificationJob) where
  abbrev pub Refusal : World → Bool → World → Type 0
  Refusal w true v = sends w ≤ sends v
  Refusal w false v =
      (r : NotificationDelivery) × (now : ℕ) × (v.deliveries ≡ w.deliveries)
      × (find_row job.job_id w.deliveries ≡ some r)
      × (claimable (stale_before now) r ≡ false)
      × (w.clock ≤ now)
      × (now ≤ v.clock)

  abbrev Inserting : World → Bool → World → Type 0
  Inserting w true v = sends w ≤ sends v
  Inserting w false v =
      (r : NotificationDelivery) × (find_row job.job_id w.deliveries ≡ some r) × Waits w v

  inserting :
      (user : ℕ) (channel : String) (now : ℕ) (w u : World) (o : Option NotificationDelivery)
      → find_row job.job_id w.deliveries ≡ o
      → Waits w u
      → Inserting w
          (try_insert k job.job_id user channel now u).0
          (try_insert k job.job_id user channel now u).1
  inserting user channel now w u none e (d, c, s) =
      rw
        (insert_claim_new job.job_id user channel now (k.env.db_now u.calls) u.deliveries
          (rw d e)).0
        s
  inserting user channel now w u (some r) e (d, c, s) =
      rw
        (insert_claim_old job.job_id user channel now (k.env.db_now u.calls) u.deliveries r
          (rw d e))
        (r, e, (d, c, s))

  updating :
      (now : ℕ) (w v : World) (r : NotificationDelivery)
      → find_row job.job_id w.deliveries ≡ some r
      → v.deliveries ≡ w.deliveries
      → sends w ≤ sends v
      → w.clock ≤ now
      → now ≤ v.clock
      → (b : Bool) → (try_update k job.job_id now (stale_before now) v).0 ≡ b
      → Refusal w b (try_update k job.job_id now (stale_before now) v).1
  updating now w v r e d s a c true h = s
  updating now w v r e d s a c false h =
      let x =
        not_updated job.job_id now (stale_before now) (k.env.db_now v.calls) v.deliveries r (rw d e)
          h in
      (r, now, x.0 ∙ d, e, x.1, a, c)

  pub try_claim_job-Refusal :
      (w u : World) (user : ℕ) (channel : String)
      → Waits w u
      → Ensures (Refusal w) (try_claim_job k job.job_id user channel u)
  unfolding try_claim_job continue
  try_claim_job-Refusal w u user channel (d, c, s) =
      let now = u.clock in
      Ensures-continue (λ b v. Inserting w b v × (now ≤ v.clock)) (Refusal w)
        (claim_by_update k job.job_id now) _
        (Ensures-ask (λ b v. Inserting w b v × (now ≤ v.clock)) k db _ u
          (
            inserting user channel now w (tick k u) (find_row job.job_id w.deliveries) refl
                (d, omega (arith, c), s),
            omega arith,
          ))
        (λ b v (i, later). go b v i later)
    where
      go :
          (b : Bool) (v : World)
          → Inserting w b v
          → u.clock ≤ v.clock
          → Ensures (Refusal w) (claim_by_update k job.job_id u.clock b v)
      go true v i later = i
      go false v (r, e, (d', c', s')) later =
          Ensures-ask (Refusal w) k db _ v
            (updating u.clock w (tick k v) r e d' s' c (omega (arith, later)) _ refl)
