-- ===== src/Worker/Atomic.antt =====
-- The two statements of try_claim_job, taken together as one conditional write of a map.
use notification_service_kaf.Prelude.{ℕ, ◌≡◌, refl, ap, ◌∙◌, String, Option, none, some, Bool, true}
use notification_service_kaf.Schemas.{NotificationDelivery}
use notification_service_kaf.Deliveries.{find_row, claimed_row}
use notification_service_kaf.Deliveries.Claim.{insert_claim_new}
use notification_service_kaf.Deliveries.Store.{
  Store, store_of, put, insert_over, take_over, insert_claim-insert_over, update_claim-take_over,
}
use notification_service_kaf.Runtime.{World, Worker}
use notification_service_kaf.Runtime.Monad.{Result, ok, tick, continue}
use notification_service_kaf.Worker.Repo.{try_claim_job, stale_before}
use notification_service_kaf.Worker.Reliable.{IsReliable}
use notification_service_kaf.Worker.Claiming.{inserted-done, updated-done}

-- A claim as one operation: a job without a row gets one, a claimable row is taken, and any other
-- row refuses the claim.
abbrev pub claim :
    ℕ → ℕ → String → ℕ → ℕ → ℕ → ℕ → Option NotificationDelivery → Store → Store × Bool
claim j user channel now stale stamp later none m =
    (put j (claimed_row j user channel now stamp) m, true)
claim j user channel now stale stamp later (some r) m = take_over j now stale later (some r) m

-- What a claim shows of the world: its answer, and the map that the table stands for.
abbrev pub seen : Result Bool × World → Result Bool × Store
seen (r, w) = (r, store_of w.deliveries)

abbrev pub granted : Store × Bool → Result Bool × Store
granted (m, b) = (ok b, m)

module _ (k : Worker) (j user : ℕ) (channel : String) (reliable : IsReliable k) where
  -- Where the database, Kafka and the timers work, the INSERT and the UPDATE of try_claim_job
  -- together implement one conditional write of the map from jobs to rows: a job without a row gets
  -- one, a claimable row becomes PROCESSING, any other row refuses the claim, and the answer tells
  -- which.
  pub try_claim_job-claim :
      (w : World)
      → seen (try_claim_job k j user channel w)
        ≡ granted (
            claim j user channel w.clock
              (stale_before w.clock)
              (k.env.db_now (tick k w).calls)
              (k.env.db_now (tick k (tick k w)).calls)
              (find_row j w.deliveries)
              (store_of w.deliveries))
  unfolding continue
  try_claim_job-claim w = go (find_row j w.deliveries) refl
    where
      go :
          (o : Option NotificationDelivery)
          → find_row j w.deliveries ≡ o
          → seen (try_claim_job k j user channel w)
            ≡ granted (
                claim j user channel w.clock
                  (stale_before w.clock)
                  (k.env.db_now (tick k w).calls)
                  (k.env.db_now (tick k (tick k w)).calls)
                  o
                  (store_of w.deliveries))
      go none h =
          let stamp = k.env.db_now (tick k w).calls in
          let new = insert_claim_new j user channel w.clock stamp w.deliveries h in
          rw (inserted-done k j user channel reliable w, new.0)
            (ap (λ (p : Store × Bool). (ok true, p.0))
              (insert_claim-insert_over j user channel w.clock stamp w.deliveries
                ∙ ap (λ o. insert_over j user channel w.clock stamp o (store_of w.deliveries)) h))
      go (some r) h =
          let stamp = k.env.db_now (tick k (tick k w)).calls in
          let stale = stale_before w.clock in
          rw (updated-done k j user channel reliable r w h) (
            ap (λ (p : Store × Bool). (ok p.1, p.0))
              (update_claim-take_over j w.clock stale stamp w.deliveries
                ∙ ap (λ o. take_over j w.clock stale stamp o (store_of w.deliveries)) h))
