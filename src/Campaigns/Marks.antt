-- ===== src/Campaigns/Marks.antt =====
-- Marking several campaigns as triggered, one after another, up to the instants that are written.
use notification_service_kaf.Prelude.{
  ℕ, suc, ◌+◌, ltb, ◌≡◌, ◌≢◌, refl, ap, ◌∙◌, sym, List, [], ◌∷◌, map, Option, none, some, Bool,
  false, ◌&&◌, ◌||◌, ◌==◌, All, arith, Bool-cases, inl, inr, if◌then◌else◌, eq_true,
}
use notification_service_kaf.Campaigns.{
  Campaign, CampaignStatus, active, inactive, limit_reached, triggered, update_triggered,
  active_campaigns, sort_by_created, insert_by_created, is_active,
}
use notification_service_kaf.Campaigns.Limits.{IsOther, IsDistinct, fetched-IsDistinct}

-- Whether there is an instant, not which.
abbrev pub touched : Option ℕ → Option ℕ
touched none = none
touched (some t) = some 0

-- A row without the instants of its last change.
abbrev pub timeless : Campaign → Campaign
timeless c = record c { last_triggered_at = touched c.last_triggered_at; updated_at = 0 }

abbrev pub select : (Campaign → Bool) → List Campaign → List Campaign
select p [] = []
select p (c ∷ cs) = if p c then c ∷ select p cs else select p cs

abbrev has_id : ℕ → List Campaign → Bool
has_id i [] = false
has_id i (c ∷ cs) = i == c.id || has_id i cs

-- The campaigns of this list are marked, in turn.
abbrev pub mark_all : List Campaign → List Campaign → List Campaign
mark_all [] t = t
mark_all (c ∷ cs) t = mark_all cs (update_triggered c.id 0 t)

pub update_triggered-timeless :
    (i stamp : ℕ) (t : List Campaign)
    → map timeless (update_triggered i stamp t) ≡ update_triggered i 0 (map timeless t)
unfolding update_triggered
update_triggered-timeless i stamp [] = refl
update_triggered-timeless i stamp (c ∷ t) = elim (Bool-cases (c.id == i)) [
  | inl e ↦ rw (e, update_triggered-timeless i stamp t) refl
  | inr e ↦ rw (e, update_triggered-timeless i stamp t) refl
]

abbrev marked_by : List Campaign → Campaign → Campaign
marked_by ds c = if has_id c.id ds then triggered 0 c else c

map-marked_by-update :
    (d : Campaign) (ds t : List Campaign)
    → has_id d.id ds ≡ false
    → map (marked_by ds) (update_triggered d.id 0 t) ≡ map (marked_by (d ∷ ds)) t
unfolding update_triggered
map-marked_by-update d ds [] h = refl
map-marked_by-update d ds (c ∷ t) h = elim (Bool-cases (c.id == d.id)) [
  | inl e ↦
      let f : has_id c.id ds ≡ false = rw (eq_true c.id d.id e) h in
      rw (e, f, map-marked_by-update d ds t h) refl
  | inr e ↦ rw (e, map-marked_by-update d ds t h) refl
]

other_id : (i j : ℕ) → j ≢ i → (i == j) ≡ false
other_id i j h = ground arith

no_id : (i : ℕ) (ds : List Campaign) → All (IsOther i) ds → has_id i ds ≡ false
no_id i [] h = refl
no_id i (d ∷ ds) (n, h) = rw (other_id i d.id n, no_id i ds h) refl

mark_all-map : (ds t : List Campaign) → IsDistinct ds → mark_all ds t ≡ map (marked_by ds) t
mark_all-map [] t h = sym (map_same t)
  where
    map_same : (u : List Campaign) → map (marked_by []) u ≡ u
    map_same [] = refl
    map_same (c ∷ u) = ap (λ v. c ∷ v) (map_same u)
mark_all-map (d ∷ ds) t (n, h) =
    mark_all-map ds (update_triggered d.id 0 t) h ∙ map-marked_by-update d ds t (no_id d.id ds n)

module _ (p : Campaign → Bool) where
  has_id-select : (i : ℕ) (ds : List Campaign) → All (IsOther i) ds → has_id i (select p ds) ≡ false
  has_id-select i [] h = refl
  has_id-select i (d ∷ ds) (n, h) = elim (Bool-cases (p d)) [
    | inl e ↦ rw (e, other_id i d.id n, has_id-select i ds h) refl
    | inr e ↦ rw (e, has_id-select i ds h) refl
  ]

  select-IsOther : (i : ℕ) (ds : List Campaign) → All (IsOther i) ds → All (IsOther i) (select p ds)
  select-IsOther i [] h = tt
  select-IsOther i (d ∷ ds) (n, h) = elim (Bool-cases (p d)) [
    | inl e ↦ rw e (n, select-IsOther i ds h)
    | inr e ↦ rw e (select-IsOther i ds h)
  ]

  select-IsDistinct : (ds : List Campaign) → IsDistinct ds → IsDistinct (select p ds)
  select-IsDistinct [] h = tt
  select-IsDistinct (d ∷ ds) (n, h) = elim (Bool-cases (p d)) [
    | inl e ↦ rw e (select-IsOther d.id ds n, select-IsDistinct ds h)
    | inr e ↦ rw e (select-IsDistinct ds h)
  ]

  -- The order of the campaigns does not matter to what is selected.
  has_id-select-insert :
      (rank : Campaign → ℕ) (i : ℕ) (c : Campaign) (ds : List Campaign)
      → has_id i (select p (insert_by_created rank c ds)) ≡ has_id i (select p (c ∷ ds))
  unfolding insert_by_created
  has_id-select-insert rank i c [] = refl
  has_id-select-insert rank i c (d ∷ ds) = ground (arith, has_id-select-insert rank i c ds)

  has_id-select-sort :
      (rank : Campaign → ℕ) (i : ℕ) (ds : List Campaign)
      → has_id i (select p (sort_by_created rank ds)) ≡ has_id i (select p ds)
  unfolding sort_by_created
  has_id-select-sort rank i [] = refl
  has_id-select-sort rank i (d ∷ ds) =
      has_id-select-insert rank i d (sort_by_created rank ds)
      ∙ ground (arith, has_id-select-sort rank i ds)

  has_id-select-active :
      (i : ℕ) (ds : List Campaign)
      → has_id i (select p (active_campaigns ds))
        ≡ has_id i (select (λ c. is_active c.status && p c) ds)
  unfolding active_campaigns
  has_id-select-active i [] = refl
  has_id-select-active i (d ∷ ds) = ground (arith, has_id-select-active i ds)

-- One more run: it is counted, some instant is its last, and the campaign stays ACTIVE only below its
-- limit.
abbrev pub status_after : Option ℕ → ℕ → CampaignStatus
status_after none runs = active
status_after (some limit) runs = if ltb runs limit then active else inactive

abbrev pub counted : Campaign → Campaign
counted c = record {
  id = c.id;
  name = c.name;
  template_code = c.template_code;
  segment_id = c.segment_id;
  schedule_cron = c.schedule_cron;
  status = status_after c.max_runs (suc c.runs_count);
  created_at = c.created_at;
  updated_at = 0;
  last_triggered_at = some 0;
  runs_count = suc c.runs_count;
  max_runs = c.max_runs;
}

status_after-limit :
    (limit : Option ℕ) (n : ℕ)
    → (if limit_reached limit (n + 1) then inactive else active) ≡ status_after limit (suc n)
status_after-limit none n = refl
status_after-limit (some l) n = ground arith

triggered-counted : (c : Campaign) → triggered 0 (timeless c) ≡ counted c
triggered-counted c =
    let once : c.runs_count + 1 ≡ suc c.runs_count = omega arith in
    rw (status_after-limit c.max_runs c.runs_count, once) refl

-- The campaigns that have the property are run once more, the others are as they were.
abbrev pub picked_by : (Campaign → Bool) → Campaign → Campaign
picked_by p c = if p c then counted c else timeless c

module _ (p : Campaign → Bool) where
  -- A campaign of the table is selected exactly if it has the property: the ids are distinct.
  abbrev IsSelectedBy : List Campaign → Campaign → Type 0
  IsSelectedBy ds c = has_id c.id (select p ds) ≡ p c

  still_selected :
      (d : Campaign) (ds t : List Campaign)
      → All (IsOther d.id) t
      → All (IsSelectedBy ds) t
      → All (IsSelectedBy (d ∷ ds)) t
  still_selected d ds [] o h = tt
  still_selected d ds (c ∷ t) (o, os) (h, hs) = (ground (arith, h, o), still_selected d ds t os hs)

  selected : (t : List Campaign) → IsDistinct t → All (IsSelectedBy t) t
  selected [] h = tt
  selected (c ∷ t) (o, h) =
      (ground (arith, has_id-select p c.id t o), still_selected c t t o (selected t h))

  map-marked_by :
      (ds t : List Campaign)
      → All (λ (c : Campaign). has_id c.id ds ≡ p c) t
      → map (marked_by ds) (map timeless t) ≡ map (picked_by p) t
  map-marked_by ds [] h = refl
  map-marked_by ds (c ∷ t) (e, h) = rw (e, map-marked_by ds t h, triggered-counted c) refl

-- The active campaigns that have the property, in the order in which the scheduler gets them.
abbrev pub selected_campaigns : (Campaign → Bool) → (Campaign → ℕ) → List Campaign → List Campaign
selected_campaigns p rank t = select p (sort_by_created rank (active_campaigns t))

-- To mark the selected campaigns in turn is to mark each campaign that is active and has the property.
pub mark_all-picked_by :
    (p : Campaign → Bool) (rank : Campaign → ℕ) (t : List Campaign)
    → IsDistinct t
    → mark_all (selected_campaigns p rank t) (map timeless t)
      ≡ map (picked_by (λ c. is_active c.status && p c)) t
mark_all-picked_by p rank t h =
    mark_all-map (selected_campaigns p rank t) (map timeless t)
      (select-IsDistinct p _ (fetched-IsDistinct rank t h))
    ∙ map-marked_by (λ c. is_active c.status && p c) (selected_campaigns p rank t) t
        (found_in t (selected (λ c. is_active c.status && p c) t h))
  where
    found_in :
        (u : List Campaign)
        → All
            (λ (c : Campaign).
              has_id c.id (select (λ c. is_active c.status && p c) t) ≡ (is_active c.status && p c))
            u
        → All
            (λ (c : Campaign).
              has_id c.id (selected_campaigns p rank t) ≡ (is_active c.status && p c))
            u
    found_in [] h = tt
    found_in (c ∷ u) (e, h) = (
      has_id-select-sort p rank c.id (active_campaigns t) ∙ has_id-select-active p c.id t ∙ e,
      found_in u h,
    )
