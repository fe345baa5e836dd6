-- ===== src/Worker/Exclusive.antt =====
-- Claims of one job by any number of workers, whose statements are interleaved in any order.
use notification_service_kaf.Prelude.{
  ℕ, ◌+◌, ◌≤◌, ◌≡◌, ◌⊎◌, refl, String, List, [], ◌∷◌, Option, none, some, Bool, true, false, All,
  arith, Bool-cases, inl, inr, if◌then◌else◌,
}
use notification_service_kaf.Schemas.{NotificationDelivery, processing}
use notification_service_kaf.Deliveries.{Table, find_row, insert_claim, update_claim, claimable}
use notification_service_kaf.Deliveries.Claim.{
  insert_claim_new, insert_claim_old, update_claim_free, update_claim_held, update_claim-none,
}
use notification_service_kaf.Worker.Repo.{stale_before, stale_after_seconds, seconds}

-- A statement of some worker's try_claim_job, with the instant at which that worker began.
pub data Statement : Type 0 where
  inserts : (user : ℕ) (channel : String) (now stamp : ℕ) → Statement
  updates : (now stamp : ℕ) → Statement

abbrev pub instant : Statement → ℕ
instant (inserts user channel now stamp) = now
instant (updates now stamp) = now

abbrev pub execute : ℕ → Statement → Table → Table × Bool
execute j (inserts user channel now stamp) t = insert_claim j user channel now stamp t
execute j (updates now stamp) t = update_claim j now (stale_before now) stamp t

-- How many of the statements answer that they claimed the job.
unfoldable pub grants : ℕ → List Statement → Table → ℕ
grants j [] t = 0
grants j (s ∷ ss) t =
    let (u, claimed) = execute j s t in
    let rest = grants j ss u in if claimed then rest + 1 else rest

-- The worker began within the time after which a claim is stale.
abbrev pub IsNear : ℕ → Statement → Type 0
IsNear start s = (start ≤ instant s) × (instant s ≤ start + seconds stale_after_seconds)

-- The row is claimed since `start` or later.
abbrev IsTaken : ℕ → NotificationDelivery → Type 0
IsTaken start r =
    (r.status ≡ processing) × (n : ℕ) × (r.processing_started_at ≡ some n) × (start ≤ n)

IsTaken-claimable :
    (start now : ℕ) (r : NotificationDelivery)
    → IsTaken start r
    → now ≤ start + seconds stale_after_seconds
    → claimable (stale_before now) r ≡ false
IsTaken-claimable start now r (p, n, e, l) h = rw (p, e) (ground arith)

module _ (j start : ℕ) where
  taken-execute :
      (s : Statement) (t : Table) (r : NotificationDelivery)
      → find_row j t ≡ some r
      → IsTaken start r
      → IsNear start s
      → execute j s t ≡ (t, false)
  taken-execute (inserts user channel now stamp) t r f i h =
      insert_claim_old j user channel now stamp t r f
  taken-execute (updates now stamp) t r f i h =
      update_claim_held j now (stale_before now) stamp t r f (IsTaken-claimable start now r i h.1)

  -- Nothing is granted while the claim lasts.
  taken-grants :
      (ss : List Statement) (t : Table) (r : NotificationDelivery)
      → find_row j t ≡ some r
      → IsTaken start r
      → All (IsNear start) ss
      → grants j ss t ≡ 0
  unfolding grants
  taken-grants [] t r f i h = refl
  taken-grants (s ∷ ss) t r f i h = rw (taken-execute s t r f i h.0) (taken-grants ss t r f i h.1)

  -- What a statement does: it claims the job, or it leaves the table alone.
  abbrev Effect : Table → Table × Bool → Type 0
  Effect t p =
      (p ≡ (t, false))
      ⊎ ((p.1 ≡ true) × (r : NotificationDelivery) × (find_row j p.0 ≡ some r) × IsTaken start r)

  execute-Effect : (s : Statement) (t : Table) → IsNear start s → Effect t (execute j s t)
  execute-Effect (inserts user channel now stamp) t h = go (find_row j t) refl
    where
      go :
          (o : Option NotificationDelivery)
          → find_row j t ≡ o
          → Effect t (insert_claim j user channel now stamp t)
      go none f =
          let new = insert_claim_new j user channel now stamp t f in
          inr (new.0, _, new.1, (refl, now, refl, h.0))
      go (some r) f = inl (insert_claim_old j user channel now stamp t r f)
  execute-Effect (updates now stamp) t h = go (find_row j t) refl
    where
      go :
          (o : Option NotificationDelivery)
          → find_row j t ≡ o
          → Effect t (update_claim j now (stale_before now) stamp t)
      go none f = inl (update_claim-none j now (stale_before now) stamp t f)
      go (some r) f = elim (Bool-cases (claimable (stale_before now) r)) [
        | inl c ↦
            let new = update_claim_free j now (stale_before now) stamp t r f c in
            inr (new.0, _, new.1, (refl, now, refl, h.0))
        | inr c ↦ inl (update_claim_held j now (stale_before now) stamp t r f c)
      ]

  counted :
      (ss : List Statement) (t : Table) (p : Table × Bool)
      → Effect t p
      → All (IsNear start) ss
      → grants j ss t ≤ 1
      → (if p.1 then grants j ss p.0 + 1 else grants j ss p.0) ≤ 1
  counted ss t p (inl e) h l = rw e l
  counted ss t p (inr (g, r, f, i)) h l = rw g (omega (arith, taken-grants ss p.0 r f i h))

  -- However the INSERTs and UPDATEs of any number of claims of one job are interleaved, over any
  -- table, at most one of them is granted, if the claims began within 300 seconds of one another.
  pub grants-le : (ss : List Statement) (t : Table) → All (IsNear start) ss → grants j ss t ≤ 1
  unfolding grants
  grants-le [] t h = omega arith
  grants-le (s ∷ ss) t h =
      counted ss t (execute j s t) (execute-Effect s t h.0) h.1 (grants-le ss t h.1)
