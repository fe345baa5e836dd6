-- ===== src/Deliveries/Frame.antt =====
-- What each statement does to the row of its job, and that it leaves the other jobs' rows alone.
use notification_service_kaf.Prelude.{ℕ, ◌≡◌, refl, ◌≢◌, String, [], ◌∷◌, Option, none, some, arith}
use notification_service_kaf.Schemas.{NotificationDelivery}
use notification_service_kaf.Deliveries.{
  Table, find_row, insert_claim, update_claim, upsert, Saved, saved_row, overwrite,
}

pub find_row-upsert_ne :
    (i : ℕ) (s : Saved) (stamp : ℕ) (t : Table)
    → i ≢ s.job_id
    → find_row i (upsert s stamp t) ≡ find_row i t
unfolding upsert
find_row-upsert_ne i s stamp [] h = ground arith
find_row-upsert_ne i s stamp (r ∷ t) h = ground (arith, find_row-upsert_ne i s stamp t h)

pub find_row-insert_claim_ne :
    (i j user : ℕ) (channel : String) (now stamp : ℕ) (t : Table)
    → i ≢ j
    → find_row i (insert_claim j user channel now stamp t).0 ≡ find_row i t
unfolding insert_claim
find_row-insert_claim_ne i j user channel now stamp [] h = ground arith
find_row-insert_claim_ne i j user channel now stamp (r ∷ t) h =
    ground (arith, find_row-insert_claim_ne i j user channel now stamp t h)

pub find_row-update_claim_ne :
    (i j now stale stamp : ℕ) (t : Table)
    → i ≢ j
    → find_row i (update_claim j now stale stamp t).0 ≡ find_row i t
unfolding update_claim
find_row-update_claim_ne i j now stale stamp [] h = refl
find_row-update_claim_ne i j now stale stamp (r ∷ t) h =
    ground (arith, find_row-update_claim_ne i j now stale stamp t h)

-- The row that save_status leaves, by what was there before.
abbrev pub saved_over : Saved → ℕ → Option NotificationDelivery → NotificationDelivery
saved_over s stamp none = saved_row s stamp
saved_over s stamp (some r) = overwrite s stamp r

pub find_row-upsert :
    (s : Saved) (stamp : ℕ) (t : Table)
    → find_row s.job_id (upsert s stamp t) ≡ some (saved_over s stamp (find_row s.job_id t))
unfolding upsert
find_row-upsert s stamp [] = ground arith
find_row-upsert s stamp (r ∷ t) = ground (arith, find_row-upsert s stamp t)

-- What save_status leaves in the row does not depend on what was there, but for the columns that it
-- does not set.
pub saved_over-fields :
    (s : Saved) (stamp : ℕ) (o : Option NotificationDelivery)
    → let r = saved_over s stamp o in
      (r.status ≡ s.status)
      × (r.attempts ≡ s.attempts)
      × (r.error_message ≡ s.error_message)
      × (r.sent_at ≡ s.sent_at)
      × (r.processing_started_at ≡ none)
saved_over-fields s stamp none = (refl, refl, refl, refl, refl)
saved_over-fields s stamp (some r) = (refl, refl, refl, refl, refl)
