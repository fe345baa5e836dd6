-- ===== src/Worker/Claiming.antt =====
-- try_claim_job where the database works, by the row that it meets.
use notification_service_kaf.Prelude.{ℕ, ◌≡◌, refl, ap, String, some, none, Bool, true, false}
use notification_service_kaf.Schemas.{NotificationDelivery}
use notification_service_kaf.Deliveries.{find_row, claimable, claimed_row}
use notification_service_kaf.Deliveries.Store.{taken}
use notification_service_kaf.Deliveries.Claim.{
  insert_claim_new, insert_claim_old, update_claim_free, update_claim_held,
}
use notification_service_kaf.Runtime.{World, Worker, db}
use notification_service_kaf.Runtime.Monad.{Result, ok, tick, continue}
use notification_service_kaf.Worker.Repo.{
  try_claim_job, try_insert, try_update, claim_by_update, stale_before,
}
use notification_service_kaf.Worker.Reliable.{IsReliable, ask-done}

-- The claim was answered, and left this row under the job; the rest of the world is as before but
-- for time.
pub record IsClaim (j : ℕ) (w : World) (b : Bool) (r : NotificationDelivery)
    (p : Result Bool × World) : Type 0 where
  pub answered : p.0 ≡ ok b
  pub found : find_row j p.1.deliveries ≡ some r
  pub same_sent : p.1.sent ≡ w.sent
  pub same_dlq : p.1.dlq ≡ w.dlq
  pub same_templates : p.1.templates ≡ w.templates

module _ (k : Worker) (j user : ℕ) (channel : String) (reliable : IsReliable k) where
  pub inserted-done :
      (w : World)
      → try_claim_job k j user channel w
        ≡ continue (claim_by_update k j w.clock) (
          ok (try_insert k j user channel w.clock (tick k w)).0,
          (try_insert k j user channel w.clock (tick k w)).1,
        )
  unfolding try_claim_job continue
  inserted-done w =
      ap (continue (claim_by_update k j w.clock))
        (ask-done k db (try_insert k j user channel w.clock) w (reliable.db_done w.calls))

  -- A job without a row is claimed, by a new row with no attempts.
  pub try_claim_job-new :
      (w : World)
      → find_row j w.deliveries ≡ none
      → IsClaim j w true
          (claimed_row j user channel w.clock (k.env.db_now (tick k w).calls))
          (try_claim_job k j user channel w)
  unfolding continue
  try_claim_job-new w h =
      let new =
        insert_claim_new j user channel w.clock (k.env.db_now (tick k w).calls) w.deliveries h in
      rw (inserted-done w, new.0)
        (record {
          answered = refl;
          found = new.1;
          same_sent = refl;
          same_dlq = refl;
          same_templates = refl;
        })

  module _ (r : NotificationDelivery) where
    pub updated-done :
        (w : World)
        → find_row j w.deliveries ≡ some r
        → try_claim_job k j user channel w ≡ (
          ok (try_update k j w.clock (stale_before w.clock) (tick k (tick k w))).0,
          (try_update k j w.clock (stale_before w.clock) (tick k (tick k w))).1,
        )
    unfolding continue
    updated-done w h =
        rw
          (
            inserted-done w,
            insert_claim_old j user channel w.clock (k.env.db_now (tick k w).calls) w.deliveries r
                h,
          )
          (ask-done k db (try_update k j w.clock (stale_before w.clock)) (tick k w)
            (reliable.db_done (tick k w).calls))

    -- A claimable row is claimed: it becomes PROCESSING from now on, with its attempts kept.
    pub try_claim_job-free :
        (w : World)
        → find_row j w.deliveries ≡ some r
        → claimable (stale_before w.clock) r ≡ true
        → IsClaim j w true
            (taken w.clock (k.env.db_now (tick k (tick k w)).calls) r)
            (try_claim_job k j user channel w)
    try_claim_job-free w h c =
        let new =
          update_claim_free j w.clock (stale_before w.clock)
            (k.env.db_now (tick k (tick k w)).calls) w.deliveries r h c in
        rw (updated-done w h, new.0)
          (record {
            answered = refl;
            found = new.1;
            same_sent = refl;
            same_dlq = refl;
            same_templates = refl;
          })

    -- Any other row is left as it is, and the job is not claimed.
    pub try_claim_job-held :
        (w : World)
        → find_row j w.deliveries ≡ some r
        → claimable (stale_before w.clock) r ≡ false
        → try_claim_job k j user channel w ≡ (ok false, tick k (tick k w))
    try_claim_job-held w h c = rw (
      updated-done w h,
      update_claim_held j w.clock (stale_before w.clock) (k.env.db_now (tick k (tick k w)).calls)
          w.deliveries r h c,
    )
