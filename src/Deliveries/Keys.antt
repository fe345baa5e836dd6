-- ===== src/Deliveries/Keys.antt =====
-- job_id stays the primary key under every statement.
use notification_service_kaf.Prelude.{ℕ, ◌≡◌, refl, String, [], ◌∷◌, none, arith}
use notification_service_kaf.Deliveries.{Table, find_row, insert_claim, update_claim, upsert, Saved}
use notification_service_kaf.Deliveries.Frame.{
  find_row-upsert_ne, find_row-insert_claim_ne, find_row-update_claim_ne,
}

-- No two rows have one job_id.
abbrev pub IsKeyed : Table → Type 0
IsKeyed [] = Unit {0}
IsKeyed (r ∷ t) = (find_row r.job_id t ≡ none) × IsKeyed t

pub upsert-IsKeyed : (s : Saved) (stamp : ℕ) (t : Table) → IsKeyed t → IsKeyed (upsert s stamp t)
unfolding upsert
upsert-IsKeyed s stamp [] h = (refl, tt)
upsert-IsKeyed s stamp (r ∷ t) h =
    ground (arith, upsert-IsKeyed s stamp t h.1, find_row-upsert_ne r.job_id s stamp t)

pub insert_claim-IsKeyed :
    (j user : ℕ) (channel : String) (now stamp : ℕ) (t : Table)
    → IsKeyed t
    → IsKeyed (insert_claim j user channel now stamp t).0
unfolding insert_claim
insert_claim-IsKeyed j user channel now stamp [] h = (refl, tt)
insert_claim-IsKeyed j user channel now stamp (r ∷ t) h = ground (
  arith,
  insert_claim-IsKeyed j user channel now stamp t h.1,
  find_row-insert_claim_ne r.job_id j user channel now stamp t,
)

pub update_claim-IsKeyed :
    (j now stale stamp : ℕ) (t : Table) → IsKeyed t → IsKeyed (update_claim j now stale stamp t).0
unfolding update_claim
update_claim-IsKeyed j now stale stamp [] h = tt
update_claim-IsKeyed j now stale stamp (r ∷ t) h = ground (
  arith,
  update_claim-IsKeyed j now stale stamp t h.1,
  find_row-update_claim_ne r.job_id j now stale stamp t,
)
