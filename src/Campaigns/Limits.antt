-- ===== src/Campaigns/Limits.antt =====
-- The campaigns' limits of runs, and lists of campaigns with distinct ids.
use notification_service_kaf.Prelude.{
  ℕ, ◌+◌, ◌≤◌, ◌≡◌, ◌≢◌, sym, ◌∙◌, eq_true, String, List, [], ◌∷◌, Option, none, some, true, false,
  arith, ◌==◌, All, Bool-cases, inl, inr,
}
use notification_service_kaf.Campaigns.{
  Campaign, is_active, active_campaigns, is_older, insert_by_created, sort_by_created,
  limit_reached, update_triggered, is_campaign_due,
}

-- `runs` runs are no more than the limit, where there is one.
abbrev pub Fits : Option ℕ → ℕ → Type 0
Fits none runs = Unit {0}
Fits (some limit) runs = runs ≤ limit

-- The campaign has not run more often than max_runs.
abbrev pub IsWithin : Campaign → Type 0
IsWithin c = Fits c.max_runs c.runs_count

-- If the campaign has this id, it may run once more.
abbrev pub HasRoom : ℕ → Campaign → Type 0
HasRoom i c = c.id ≡ i → limit_reached c.max_runs c.runs_count ≡ false

abbrev pub IsOther : ℕ → Campaign → Type 0
IsOther i c = c.id ≢ i

-- The id is the primary key.
abbrev pub IsDistinct : List Campaign → Type 0
IsDistinct [] = Unit {0}
IsDistinct (c ∷ cs) = All (IsOther c.id) cs × IsDistinct cs

-- A campaign that was read from a table may run once more there if the row read allows it.
abbrev pub IsFresh : List Campaign → Campaign → Type 0
IsFresh t c = limit_reached c.max_runs c.runs_count ≡ false → All (HasRoom c.id) t

Fits-suc : (o : Option ℕ) (n : ℕ) → limit_reached o n ≡ false → Fits o (n + 1)
Fits-suc none n h = tt
Fits-suc (some limit) n h = ground arith

pub update_triggered-IsWithin :
    (i stamp : ℕ) (t : List Campaign)
    → All (HasRoom i) t
    → All IsWithin t
    → All IsWithin (update_triggered i stamp t)
unfolding update_triggered
update_triggered-IsWithin i stamp [] r h = tt
update_triggered-IsWithin i stamp (c ∷ t) r h = elim (Bool-cases (c.id == i)) [
  | inl e ↦ rw e (
    Fits-suc c.max_runs c.runs_count (r.0 (eq_true c.id i e)),
    update_triggered-IsWithin i stamp t r.1 h.1,
  )
  | inr e ↦ rw e (h.0, update_triggered-IsWithin i stamp t r.1 h.1)
]

-- Marking another campaign leaves the room of one.
pub update_triggered-HasRoom :
    (i j stamp : ℕ) (t : List Campaign)
    → j ≢ i
    → All (HasRoom j) t
    → All (HasRoom j) (update_triggered i stamp t)
unfolding update_triggered
update_triggered-HasRoom i j stamp [] n r = tt
update_triggered-HasRoom i j stamp (c ∷ t) n r = elim (Bool-cases (c.id == i)) [
  | inl e ↦
      rw e
        ((λ f. absurd (n (sym f ∙ eq_true c.id i e))), update_triggered-HasRoom i j stamp t n r.1)
  | inr e ↦ rw e (r.0, update_triggered-HasRoom i j stamp t n r.1)
]

pub is_campaign_due-limit_reached :
    (next_run : String → ℕ → Option ℕ) (c : Campaign) (now : ℕ)
    → is_campaign_due next_run c now ≡ true
    → limit_reached c.max_runs c.runs_count ≡ false
unfolding is_campaign_due
is_campaign_due-limit_reached next_run c now h = ground (arith, h)

module _ (P : Campaign → Type 0) where
  pub active_campaigns-All : (cs : List Campaign) → All P cs → All P (active_campaigns cs)
  unfolding active_campaigns
  active_campaigns-All [] h = tt
  active_campaigns-All (c ∷ cs) h = elim (Bool-cases (is_active c.status)) [
    | inl e ↦ rw e (h.0, active_campaigns-All cs h.1)
    | inr e ↦ rw e (active_campaigns-All cs h.1)
  ]

  insert_by_created-All :
      (rank : Campaign → ℕ) (c : Campaign) (cs : List Campaign)
      → P c
      → All P cs
      → All P (insert_by_created rank c cs)
  unfolding insert_by_created
  insert_by_created-All rank c [] p h = (p, tt)
  insert_by_created-All rank c (d ∷ cs) p h = elim (Bool-cases (is_older rank c d)) [
    | inl e ↦ rw e (p, h)
    | inr e ↦ rw e (h.0, insert_by_created-All rank c cs p h.1)
  ]

  pub sort_by_created-All :
      (rank : Campaign → ℕ) (cs : List Campaign) → All P cs → All P (sort_by_created rank cs)
  unfolding sort_by_created
  sort_by_created-All rank [] h = tt
  sort_by_created-All rank (c ∷ cs) h =
      insert_by_created-All rank c _ h.0 (sort_by_created-All rank cs h.1)

active_campaigns-IsDistinct :
    (cs : List Campaign) → IsDistinct cs → IsDistinct (active_campaigns cs)
unfolding active_campaigns
active_campaigns-IsDistinct [] h = tt
active_campaigns-IsDistinct (c ∷ cs) h = elim (Bool-cases (is_active c.status)) [
  | inl e ↦ rw e (active_campaigns-All (IsOther c.id) cs h.0, active_campaigns-IsDistinct cs h.1)
  | inr e ↦ rw e (active_campaigns-IsDistinct cs h.1)
]

insert_by_created-IsDistinct :
    (rank : Campaign → ℕ) (c : Campaign) (cs : List Campaign)
    → All (IsOther c.id) cs
    → IsDistinct cs
    → IsDistinct (insert_by_created rank c cs)
unfolding insert_by_created
insert_by_created-IsDistinct rank c [] o h = (tt, tt)
insert_by_created-IsDistinct rank c (d ∷ cs) o h = elim (Bool-cases (is_older rank c d)) [
  | inl e ↦ rw e (o, h)
  | inr e ↦ rw e (
    insert_by_created-All (IsOther d.id) rank c cs (λ f. o.0 (sym f)) h.0,
    insert_by_created-IsDistinct rank c cs o.1 h.1,
  )
]

sort_by_created-IsDistinct :
    (rank : Campaign → ℕ) (cs : List Campaign)
    → IsDistinct cs
    → IsDistinct (sort_by_created rank cs)
unfolding sort_by_created
sort_by_created-IsDistinct rank [] h = tt
sort_by_created-IsDistinct rank (c ∷ cs) h =
    insert_by_created-IsDistinct rank c _ (sort_by_created-All (IsOther c.id) rank cs h.0)
      (sort_by_created-IsDistinct rank cs h.1)

others_have_room : (i : ℕ) (t : List Campaign) → All (IsOther i) t → All (HasRoom i) t
others_have_room i [] h = tt
others_have_room i (c ∷ t) h = ((λ e. absurd (h.0 e)), others_have_room i t h.1)

older_IsFresh :
    (c : Campaign) (t ds : List Campaign)
    → All (IsOther c.id) ds
    → All (IsFresh t) ds
    → All (IsFresh (c ∷ t)) ds
older_IsFresh c t [] o h = tt
older_IsFresh c t (d ∷ ds) o h =
    ((λ e. ((λ f. absurd (o.0 (sym f))), h.0 e)), older_IsFresh c t ds o.1 h.1)

own_IsFresh : (t : List Campaign) → IsDistinct t → All (IsFresh t) t
own_IsFresh [] h = tt
own_IsFresh (c ∷ t) h =
    ((λ e. ((λ f. e), others_have_room c.id t h.0)), older_IsFresh c t t h.0 (own_IsFresh t h.1))

-- The active campaigns in the order of their creation have distinct ids and are fresh.
pub fetched-IsDistinct :
    (rank : Campaign → ℕ) (t : List Campaign)
    → IsDistinct t
    → IsDistinct (sort_by_created rank (active_campaigns t))
fetched-IsDistinct rank t h = sort_by_created-IsDistinct rank _ (active_campaigns-IsDistinct t h)

pub fetched-IsFresh :
    (rank : Campaign → ℕ) (t : List Campaign)
    → IsDistinct t
    → All (IsFresh t) (sort_by_created rank (active_campaigns t))
fetched-IsFresh rank t h =
    sort_by_created-All (IsFresh t) rank _ (active_campaigns-All (IsFresh t) t (own_IsFresh t h))

update_triggered-IsOther :
    (i j stamp : ℕ) (t : List Campaign)
    → All (IsOther j) t
    → All (IsOther j) (update_triggered i stamp t)
unfolding update_triggered
update_triggered-IsOther i j stamp [] h = tt
update_triggered-IsOther i j stamp (c ∷ t) h = elim (Bool-cases (c.id == i)) [
  | inl e ↦ rw e (h.0, update_triggered-IsOther i j stamp t h.1)
  | inr e ↦ rw e (h.0, update_triggered-IsOther i j stamp t h.1)
]

-- Marking a campaign keeps the ids.
pub update_triggered-IsDistinct :
    (i stamp : ℕ) (t : List Campaign) → IsDistinct t → IsDistinct (update_triggered i stamp t)
unfolding update_triggered
update_triggered-IsDistinct i stamp [] h = tt
update_triggered-IsDistinct i stamp (c ∷ t) h = elim (Bool-cases (c.id == i)) [
  | inl e ↦
      rw e (update_triggered-IsOther i c.id stamp t h.0, update_triggered-IsDistinct i stamp t h.1)
  | inr e ↦
      rw e (update_triggered-IsOther i c.id stamp t h.0, update_triggered-IsDistinct i stamp t h.1)
]
