-- ===== src/Deliveries/Store.antt =====
-- The table as a map from jobs to rows: what each statement does to it, whatever the order of the rows.
use notification_service_kaf.Prelude.{
  ℕ, ◌≡◌, refl, ap, ◌≢◌, eq_true, eq_false, String, Option, none, some, Bool, true, false, ◌==◌,
  if◌then◌else◌, Bool-cases, inl, inr,
}
use notification_service_kaf.Schemas.{NotificationDelivery, processing}
use notification_service_kaf.Deliveries.{
  Table, find_row, insert_claim, update_claim, upsert, Saved, claimed_row, claimable,
}
use notification_service_kaf.Deliveries.Frame.{
  find_row-upsert, find_row-upsert_ne, find_row-insert_claim_ne, find_row-update_claim_ne,
  saved_over,
}
use notification_service_kaf.Deliveries.Claim.{
  insert_claim_new, insert_claim_old, update_claim-none, update_claim_free, update_claim_held,
}

abbrev pub Store : Type 0
Store = ℕ → Option NotificationDelivery

-- The map that a table stands for.
abbrev pub store_of : Table → Store
store_of t j = find_row j t

abbrev pub put : ℕ → NotificationDelivery → Store → Store
put j r m i = if i == j then some r else m i

abbrev pub save : Saved → ℕ → Store → Store
save s stamp m = put s.job_id (saved_over s stamp (m s.job_id)) m

-- A claim that meets this row.
abbrev pub insert_over : ℕ → ℕ → String → ℕ → ℕ → Option NotificationDelivery → Store → Store × Bool
insert_over j user channel now stamp none m = (put j (claimed_row j user channel now stamp) m, true)
insert_over j user channel now stamp (some r) m = (m, false)

abbrev pub taken : ℕ → ℕ → NotificationDelivery → NotificationDelivery
taken now stamp r = record r {
  status = processing;
  processing_started_at = some now;
  updated_at = stamp;
}

abbrev pub take_over : ℕ → ℕ → ℕ → ℕ → Option NotificationDelivery → Store → Store × Bool
take_over j now stale stamp none m = (m, false)
take_over j now stale stamp (some r) m =
    if claimable stale r then (put j (taken now stamp r) m, true) else (m, false)

put-ext :
    (j : ℕ) (r : NotificationDelivery) (t u : Table)
    → find_row j u ≡ some r
    → ((i : ℕ) → i ≢ j → find_row i u ≡ find_row i t)
    → store_of u ≡ put j r (store_of t)
put-ext j r t u here there = λ x i. go i x
  where
    go : (i : ℕ) → find_row i u ≡ put j r (store_of t) i
    go i = elim (Bool-cases (i == j)) [
      | inl e ↦ rw (e, eq_true i j e) here
      | inr e ↦ rw e (there i (eq_false i j e))
    ]

-- The upsert of save_status is a write of the map.
pub upsert-save :
    (s : Saved) (stamp : ℕ) (t : Table) → store_of (upsert s stamp t) ≡ save s stamp (store_of t)
upsert-save s stamp t =
    put-ext s.job_id _ t _ (find_row-upsert s stamp t) λ i h. find_row-upsert_ne i s stamp t h

pub insert_claim-insert_over :
    (j user : ℕ) (channel : String) (now stamp : ℕ) (t : Table)
    → let p = insert_claim j user channel now stamp t in
      (store_of p.0, p.1) ≡ insert_over j user channel now stamp (find_row j t) (store_of t)
insert_claim-insert_over j user channel now stamp t = go (find_row j t) refl
  where
    go :
        (o : Option NotificationDelivery)
        → find_row j t ≡ o
        → let p = insert_claim j user channel now stamp t in
          (store_of p.0, p.1) ≡ insert_over j user channel now stamp o (store_of t)
    go none h =
        let new = insert_claim_new j user channel now stamp t h in
        λ x. (
          put-ext j _ t _ new.1 (λ i n. find_row-insert_claim_ne i j user channel now stamp t n) x,
          new.0 x,
        )
    go (some r) h =
        ap (λ (p : Table × Bool). (store_of p.0, p.1))
          (insert_claim_old j user channel now stamp t r h)

pub update_claim-take_over :
    (j now stale stamp : ℕ) (t : Table)
    → let p = update_claim j now stale stamp t in
      (store_of p.0, p.1) ≡ take_over j now stale stamp (find_row j t) (store_of t)
update_claim-take_over j now stale stamp t = go (find_row j t) refl
  where
    go :
        (o : Option NotificationDelivery)
        → find_row j t ≡ o
        → let p = update_claim j now stale stamp t in
          (store_of p.0, p.1) ≡ take_over j now stale stamp o (store_of t)
    go none h =
        ap (λ (p : Table × Bool). (store_of p.0, p.1)) (update_claim-none j now stale stamp t h)
    go (some r) h = elim (Bool-cases (claimable stale r)) [
      | inl c ↦
          let new = update_claim_free j now stale stamp t r h c in
          rw c (λ x. (
            put-ext j _ t _ new.1 (λ i n. find_row-update_claim_ne i j now stale stamp t n) x,
            new.0 x,
          ))
      | inr c ↦ rw c (
          ap (λ (p : Table × Bool). (store_of p.0, p.1))
            (update_claim_held j now stale stamp t r h c))
    ]
