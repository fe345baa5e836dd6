-- ===== src/Api/Templates/Keys.antt =====
-- The table `templates` under creation and update.
use notification_service_kaf.Prelude.{
  ℕ, ◌≡◌, refl, ap, List, [], ◌∷◌, Option, some, Bool, true, false, arith, ◌==◌, Bool-cases, inl,
  inr, ◌∙◌, if◌then◌else◌,
}
use mathlib.Core.Option.{some-injective}
use notification_service_kaf.Schemas.{Template}
use notification_service_kaf.Api.Templates.{
  TemplateUpdate, has_collision, insert_template, find_by_id, update_template_row, apply_update,
  collides,
}

-- No two templates share their id or their code, locale and channel.
abbrev pub IsUnique : List Template → Type 0
IsUnique [] = Unit {0}
IsUnique (t ∷ ts) = (has_collision t ts ≡ false) × IsUnique ts

pub insert_template-IsUnique :
    (t : Template) (ts us : List Template)
    → IsUnique ts
    → insert_template t ts ≡ some us
    → IsUnique us
unfolding insert_template
insert_template-IsUnique t ts us h e = ground arith

apply_update-collides :
    (u : TemplateUpdate) (stamp : ℕ) (s t : Template)
    → collides s (apply_update u stamp t) ≡ collides s t
apply_update-collides u stamp s t = ground arith

collides-apply_update :
    (u : TemplateUpdate) (stamp : ℕ) (s t : Template)
    → collides (apply_update u stamp s) t ≡ collides s t
collides-apply_update u stamp s t = ground arith

has_collision-update_template_row :
    (i : ℕ) (u : TemplateUpdate) (stamp : ℕ) (s : Template) (ts : List Template)
    → has_collision s (update_template_row i u stamp ts) ≡ has_collision s ts
unfolding has_collision update_template_row
has_collision-update_template_row i u stamp s [] = refl
has_collision-update_template_row i u stamp s (t ∷ ts) = elim (Bool-cases (t.id == i)) [
  | inl e ↦ rw (e, apply_update-collides u stamp s t)
  | inr e ↦ rw (e, has_collision-update_template_row i u stamp s ts)
]

has_collision-apply_update :
    (u : TemplateUpdate) (stamp : ℕ) (s : Template) (ts : List Template)
    → has_collision (apply_update u stamp s) ts ≡ has_collision s ts
unfolding has_collision
has_collision-apply_update u stamp s [] = refl
has_collision-apply_update u stamp s (t ∷ ts) =
    rw (collides-apply_update u stamp s t, has_collision-apply_update u stamp s ts)

pub update_template_row-IsUnique :
    (i : ℕ) (u : TemplateUpdate) (stamp : ℕ) (ts : List Template)
    → IsUnique ts
    → IsUnique (update_template_row i u stamp ts)
unfolding update_template_row
update_template_row-IsUnique i u stamp [] h = tt
update_template_row-IsUnique i u stamp (t ∷ ts) h = elim (Bool-cases (t.id == i)) [
  | inl e ↦ rw e (has_collision-apply_update u stamp t ts ∙ h.0, h.1)
  | inr e ↦ rw e (
    has_collision-update_template_row i u stamp t ts ∙ h.0,
    update_template_row-IsUnique i u stamp ts h.1,
  )
]

-- A row that was inserted is found by its id, and a collision stops the insertion.
pub find_by_id-insert_template :
    (t : Template) (ts us : List Template)
    → insert_template t ts ≡ some us
    → find_by_id t.id us ≡ some t
unfolding insert_template find_by_id
find_by_id-insert_template t ts us e = ground arith

when_true :
    (b : Bool) (s t : Template) (o : Option Template)
    → b ≡ true
    → (if b then some s else o) ≡ some t
    → some s ≡ some t
when_true true s t o e h = h
when_true false s t o e h = absurd (cc)

when_false :
    (b : Bool) (s : Template) (o p : Option Template)
    → b ≡ false
    → (if b then some s else o) ≡ p
    → o ≡ p
when_false false s o p e h = h
when_false true s o p e h = absurd (cc)

apply_update-id :
    (u : TemplateUpdate) (stamp : ℕ) (t : Template) → (apply_update u stamp t).id ≡ t.id
apply_update-id u stamp t = ground arith

-- An update is found by the id, which it keeps.
pub find_by_id-update_template_row :
    (i : ℕ) (u : TemplateUpdate) (stamp : ℕ) (ts : List Template) (t : Template)
    → find_by_id i ts ≡ some t
    → find_by_id i (update_template_row i u stamp ts) ≡ some (apply_update u stamp t)
unfolding update_template_row find_by_id
find_by_id-update_template_row i u stamp [] t h = absurd (cc)
find_by_id-update_template_row i u stamp (s ∷ ts) t h = elim (Bool-cases (s.id == i)) [
  | inl e ↦
      let same : s ≡ t = some-injective s t (when_true (s.id == i) s t _ e h) in
      rw (e, apply_update-id u stamp s, e) (ap (λ x. some (apply_update u stamp x)) same)
  | inr e ↦ rw (e, e) (find_by_id-update_template_row i u stamp ts t (ground (arith, h)))
]
