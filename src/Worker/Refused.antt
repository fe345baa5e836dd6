-- ===== src/Worker/Refused.antt =====
-- Jobs whose claim is refused: finished jobs, and jobs that another worker holds.
use notification_service_kaf.Prelude.{ℕ, ◌≡◌, ◌≢◌, refl, ◌∙◌, ap, String, some, Bool, true, false}
use notification_service_kaf.Schemas.{NotificationDelivery}
use notification_service_kaf.Deliveries.{Table, find_row, claimable}
use notification_service_kaf.Deliveries.Claim.{insert_claim_old, update_claim_held}
use notification_service_kaf.Runtime.{World, Worker, Outcome, done, refused, lost, db}
use notification_service_kaf.Runtime.Monad.{Result, ok, raised, continue, tick, ask, answer}
use notification_service_kaf.Worker.Repo.{try_claim_job, claim_by_update, stale_before}

abbrev pub table_of : World → Table
table_of w = w.deliveries

-- The claim was not granted, and the table is as before.
abbrev pub IsRefused : World → Result Bool × World → Type 0
IsRefused w p = (p.0 ≢ ok true) × (p.1.deliveries ≡ w.deliveries)

-- A statement that changes nothing and reports false.
unaffected :
    (o : Outcome) (w v : World) (t : Table) (b : Bool)
    → v.deliveries ≡ w.deliveries
    → t ≡ w.deliveries
    → b ≡ false
    → IsRefused w (answer o v (b, record v { deliveries = t }))
unaffected done w v t b e q f = ((λ y. cc), q)
unaffected (refused x) w v t b e q f = ((λ y. cc), e)
unaffected (lost x) w v t b e q f = ((λ y. cc), q)

module _ (k : Worker) (j user : ℕ) (channel : String) (r : NotificationDelivery) where
  update-IsRefused :
      (now : ℕ) (u w : World)
      → w.deliveries ≡ u.deliveries
      → find_row j w.deliveries ≡ some r
      → claimable (stale_before now) r ≡ false
      → IsRefused u (claim_by_update k j now false w)
  unfolding ask
  update-IsRefused now u w s e h =
      let held =
        update_claim_held j now (stale_before now) (k.env.db_now (tick k w).calls) w.deliveries r e
          h in
      unaffected (k.env.outcome db w.calls) u (tick k w) _ _ s
        (ap (λ (p : Table × Bool). p.0) held ∙ s) (ap (λ (p : Table × Bool). p.1) held)

  after_insert :
      (now : ℕ) (w : World) (p : Result Bool × World)
      → find_row j w.deliveries ≡ some r
      → claimable (stale_before now) r ≡ false
      → IsRefused w p
      → IsRefused w (continue (claim_by_update k j now) p)
  unfolding continue
  after_insert now w (ok true, v) e h (n, s) = absurd (n refl)
  after_insert now w (ok false, v) e h (n, s) = update-IsRefused now w v s (rw s e) h
  after_insert now w (raised x, v) e h (n, s) = ((λ y. cc), s)

  -- A row that is not claimable is not claimed, and the table stays as it is, whatever the calls do.
  pub try_claim_job-IsRefused :
      (w : World)
      → find_row j w.deliveries ≡ some r
      → claimable (stale_before w.clock) r ≡ false
      → IsRefused w (try_claim_job k j user channel w)
  unfolding try_claim_job ask continue
  try_claim_job-IsRefused w e h =
      let old =
        insert_claim_old j user channel w.clock (k.env.db_now (tick k w).calls) w.deliveries r e in
      after_insert w.clock w _ e h (
        unaffected (k.env.outcome db w.calls) w (tick k w) _ _ refl
          (ap (λ (p : Table × Bool). p.0) old) (ap (λ (p : Table × Bool). p.1) old))
