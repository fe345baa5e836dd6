-- ===== src/Api/Templates/Order.antt =====
-- The order of the templates in GET /templates, and when it is the same in every query.
use notification_service_kaf.Prelude.{
  ℕ, suc, ◌≤◌, ◌≡◌, refl, List, [], ◌∷◌, true, false, ◌≢◌, All, arith, length, Bool-cases, inl, inr,
}
use mathlib.Core.List.{Perm}
use mathlib.Core.List.Perm
use notification_service_kaf.Schemas.{Template}
use notification_service_kaf.Api.Templates.{is_before, newest_first, insert_newest}

abbrev pub IsNotNewer : ℕ → Template → Type 0
IsNotNewer t u = u.created_at ≤ t

abbrev pub IsNewestFirst : List Template → Type 0
IsNewestFirst [] = Unit {0}
IsNewestFirst (t ∷ ts) = All (IsNotNewer t.created_at) ts × IsNewestFirst ts

-- No two of the templates were created at the same instant.
abbrev pub IsOtherInstant : ℕ → Template → Type 0
IsOtherInstant t u = u.created_at ≢ t

abbrev pub HasInstants : List Template → Type 0
HasInstants [] = Unit {0}
HasInstants (t ∷ ts) = All (IsOtherInstant t.created_at) ts × HasInstants ts

module _ (rank : Template → ℕ) where
  is_before-le : (t u : Template) → is_before rank t u ≡ true → u.created_at ≤ t.created_at
  is_before-le t u h = ground arith

  not_before-le : (t u : Template) → is_before rank t u ≡ false → t.created_at ≤ u.created_at
  not_before-le t u h = ground arith

  insert_newest-All :
      (P : Template → Type 0) (t : Template) (ts : List Template)
      → P t
      → All P ts
      → All P (insert_newest rank t ts)
  unfolding insert_newest
  insert_newest-All P t [] h a = (h, tt)
  insert_newest-All P t (u ∷ us) h (b, a) = elim (Bool-cases (is_before rank t u)) [
    | inl e ↦ rw e (h, (b, a))
    | inr e ↦ rw e (b, insert_newest-All P t us h a)
  ]

  newest_first-All :
      (P : Template → Type 0) (ts : List Template) → All P ts → All P (newest_first rank ts)
  unfolding newest_first
  newest_first-All P [] h = tt
  newest_first-All P (t ∷ ts) (a, h) = insert_newest-All P t _ a (newest_first-All P ts h)

  All-weaken :
      (m n : ℕ) (ts : List Template) → m ≤ n → All (IsNotNewer m) ts → All (IsNotNewer n) ts
  All-weaken m n [] h a = tt
  All-weaken m n (t ∷ ts) h (b, a) = (omega (arith, h, b), All-weaken m n ts h a)

  insert_newest-IsNewestFirst :
      (t : Template) (ts : List Template)
      → IsNewestFirst ts
      → IsNewestFirst (insert_newest rank t ts)
  unfolding insert_newest
  insert_newest-IsNewestFirst t [] h = (tt, tt)
  insert_newest-IsNewestFirst t (u ∷ us) (a, h) = elim (Bool-cases (is_before rank t u)) [
    | inl e ↦
        let l = is_before-le t u e in
        rw e ((l, All-weaken u.created_at t.created_at us l a), (a, h))
    | inr e ↦ rw e (
      insert_newest-All (IsNotNewer u.created_at) t us (not_before-le t u e) a,
      insert_newest-IsNewestFirst t us h,
    )
  ]

  pub newest_first-IsNewestFirst : (ts : List Template) → IsNewestFirst (newest_first rank ts)
  unfolding newest_first
  newest_first-IsNewestFirst [] = tt
  newest_first-IsNewestFirst (t ∷ ts) =
      insert_newest-IsNewestFirst t _ (newest_first-IsNewestFirst ts)

  insert_newest-Perm : (t : Template) (ts : List Template) → Perm (insert_newest rank t ts) (t ∷ ts)
  unfolding insert_newest
  insert_newest-Perm t [] = Perm.rfl
  insert_newest-Perm t (u ∷ us) = elim (Bool-cases (is_before rank t u)) [
    | inl e ↦ rw e Perm.rfl
    | inr e ↦ rw e (Perm.trans (Perm.cons u (insert_newest-Perm t us)) (Perm.swap t u us))
  ]

  pub newest_first-Perm : (ts : List Template) → Perm (newest_first rank ts) ts
  unfolding newest_first
  newest_first-Perm [] = Perm.rfl
  newest_first-Perm (t ∷ ts) =
      Perm.trans (insert_newest-Perm t (newest_first rank ts)) (Perm.cons t (newest_first-Perm ts))

  length-insert_newest :
      (t : Template) (ts : List Template) → length (insert_newest rank t ts) ≡ suc (length ts)
  unfolding insert_newest
  length-insert_newest t [] = refl
  length-insert_newest t (u ∷ us) = elim (Bool-cases (is_before rank t u)) [
    | inl e ↦ rw e refl
    | inr e ↦ rw (e, length-insert_newest t us) refl
  ]

  pub length-newest_first : (ts : List Template) → length (newest_first rank ts) ≡ length ts
  unfolding newest_first
  length-newest_first [] = refl
  length-newest_first (t ∷ ts) =
      omega (arith, length-insert_newest t (newest_first rank ts), length-newest_first ts)

-- Without ties, the order is the same in every query.
module _ (rank other : Template → ℕ) where
  is_before-untied :
      (t u : Template) → u.created_at ≢ t.created_at → is_before rank t u ≡ is_before other t u
  is_before-untied t u h = ground arith

  insert_newest-untied :
      (t : Template) (ts : List Template)
      → All (IsOtherInstant t.created_at) ts
      → insert_newest rank t ts ≡ insert_newest other t ts
  unfolding insert_newest
  insert_newest-untied t [] h = refl
  insert_newest-untied t (u ∷ us) (n, h) =
      rw (is_before-untied t u n, insert_newest-untied t us h) refl

  pub newest_first-untied :
      (ts : List Template) → HasInstants ts → newest_first rank ts ≡ newest_first other ts
  unfolding newest_first
  newest_first-untied [] h = refl
  newest_first-untied (t ∷ ts) (n, h) =
      rw (newest_first-untied ts h)
        (insert_newest-untied t _ (newest_first-All other (IsOtherInstant t.created_at) ts n))
