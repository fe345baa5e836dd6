-- ===== src/Deliveries/Claim.antt =====
-- The two statements of try_claim_job, by the row that they meet.
use notification_service_kaf.Prelude.{ℕ, ◌≡◌, refl, String, [], ◌∷◌, none, some, true, false, arith}
use notification_service_kaf.Schemas.{NotificationDelivery, processing}
use notification_service_kaf.Deliveries.{
  Table, find_row, insert_claim, update_claim, claimed_row, claimable,
}

-- On a job without a row the INSERT claims it.
pub insert_claim_new :
    (j user : ℕ) (channel : String) (now stamp : ℕ) (t : Table)
    → find_row j t ≡ none
    → ((insert_claim j user channel now stamp t).1 ≡ true)
      × (find_row j (insert_claim j user channel now stamp t).0
          ≡ some (claimed_row j user channel now stamp))
unfolding insert_claim
insert_claim_new j user channel now stamp [] h = ground arith
insert_claim_new j user channel now stamp (r ∷ t) h =
    ground (arith, insert_claim_new j user channel now stamp t)

-- On a job with a row it does nothing.
pub insert_claim_old :
    (j user : ℕ) (channel : String) (now stamp : ℕ) (t : Table) (r : NotificationDelivery)
    → find_row j t ≡ some r
    → insert_claim j user channel now stamp t ≡ (t, false)
unfolding insert_claim
insert_claim_old j user channel now stamp [] r h = cc
insert_claim_old j user channel now stamp (x ∷ t) r h =
    ground (arith, insert_claim_old j user channel now stamp t r)

-- The UPDATE takes a row that is claimable.
pub update_claim_free :
    (j now stale stamp : ℕ) (t : Table) (r : NotificationDelivery)
    → find_row j t ≡ some r
    → claimable stale r ≡ true
    → ((update_claim j now stale stamp t).1 ≡ true)
      × (find_row j (update_claim j now stale stamp t).0
          ≡ some (record r {
            status = processing;
            processing_started_at = some now;
            updated_at = stamp;
          }))
unfolding update_claim
update_claim_free j now stale stamp [] r h c = cc
update_claim_free j now stale stamp (x ∷ t) r h c =
    ground (arith, update_claim_free j now stale stamp t r)

-- It changes nothing where the row is not.
pub update_claim_held :
    (j now stale stamp : ℕ) (t : Table) (r : NotificationDelivery)
    → find_row j t ≡ some r
    → claimable stale r ≡ false
    → update_claim j now stale stamp t ≡ (t, false)
unfolding update_claim
update_claim_held j now stale stamp [] r h c = cc
update_claim_held j now stale stamp (x ∷ t) r h c =
    ground (arith, update_claim_held j now stale stamp t r)

-- Without a row it changes nothing either.
pub update_claim-none :
    (j now stale stamp : ℕ) (t : Table)
    → find_row j t ≡ none
    → update_claim j now stale stamp t ≡ (t, false)
unfolding update_claim
update_claim-none j now stale stamp [] h = refl
update_claim-none j now stale stamp (x ∷ t) h =
    ground (arith, update_claim-none j now stale stamp t)
