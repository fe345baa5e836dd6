-- ===== src/Api/Endpoints.antt =====
-- The template endpoints: what they answer, and what they keep.
use notification_service_kaf.Prelude.{ℕ, ◌≡◌, List, [], ◌∷◌, arith, Option-cases, inl, inr}
use notification_service_kaf.Schemas.{Template}
use notification_service_kaf.Runtime.{World, Worker}
use notification_service_kaf.Runtime.Monad.{Result, tick}
use notification_service_kaf.Runtime.Trace.{
  Steps, Steps-keep, Steps-continue, Steps-or_raise, Steps-ask, here, next,
}
use notification_service_kaf.Api.Templates.{
  TemplateCreate, TemplateUpdate, create, update, create_template, update_template, select_template,
  commit_new, commit_update, insert_template, conflict, inserted,
}
use notification_service_kaf.Api.Templates.Keys.{
  IsUnique, insert_template-IsUnique, update_template_row-IsUnique,
}

-- The changes that an endpoint makes to the world.
data Edit (k : Worker) : World → World → Type 0 where
  passed : (w : World) → Edit k w (tick k w)
  added : (c : TemplateCreate) (i : ℕ) (w : World) → Edit k w (commit_new k c i w).1
  changed : (i : ℕ) (u : TemplateUpdate) (w : World) → Edit k w (commit_update k i u w).1

inserted-IsUnique :
    (t : Template) (ts : List Template)
    → IsUnique ts
    → IsUnique (inserted t ts (insert_template t ts))
inserted-IsUnique t ts h = elim (Option-cases (insert_template t ts)) [
  | inl e ↦ rw e h
  | inr (us, e) ↦ rw e (insert_template-IsUnique t ts us h e)
]

Edit-IsUnique :
    (k : Worker) (v w : World) → Edit k v w → IsUnique v.templates → IsUnique w.templates
Edit-IsUnique k _ _ (passed w) h = h
Edit-IsUnique k _ _ (added c i w) h = inserted-IsUnique _ w.templates h
Edit-IsUnique k _ _ (changed i u w) h = update_template_row-IsUnique i u _ w.templates h

module _ (k : Worker) where
  select-Edits : (i : ℕ) (w : World) → Steps (Edit k) w (select_template k i w).1
  unfolding select_template
  select-Edits i w = Steps-ask k passed _ _ w here

  create-Edits : (c : TemplateCreate) (w : World) → Steps (Edit k) w (create k c w).1
  unfolding create
  create-Edits c w = Steps-continue _ w _ here λ i w₁.
      Steps-continue _ w₁ _ (Steps-ask k passed _ _ w₁ (next here (added c i _))) λ made w₂.
        Steps-continue _ w₂ _ (Steps-or_raise made _ w₂)
          λ t w₃. Steps-continue _ w₃ _ (select-Edits i w₃) λ o. Steps-or_raise o _

  update-Edits : (i : ℕ) (u : TemplateUpdate) (w : World) → Steps (Edit k) w (update k i u w).1
  unfolding update
  update-Edits i u w =
      Steps-continue _ w _ (Steps-ask k passed _ _ w (next here (changed i u _)))
        λ x w₁. Steps-continue _ w₁ _ (select-Edits i w₁) λ o. Steps-or_raise o _

  conflict-world : (p : Result Template × World) → (conflict p).1 ≡ p.1
  conflict-world p = ground arith

  -- POST keeps the ids, and the code, locale and channel together, of the templates unique,
  -- whatever the calls of the database do.
  create_template-IsUnique :
      (c : TemplateCreate) (w : World)
      → IsUnique w.templates
      → IsUnique (create_template k c w).1.templates
  unfolding create_template
  create_template-IsUnique c w h =
      rw (conflict-world (create k c w))
        (Steps-keep (λ v. IsUnique v.templates) (Edit-IsUnique k) (create-Edits c w) h)

  -- PUT keeps the ids, and the code, locale and channel together, of the templates unique, whatever
  -- the calls of the database do.
  update_template-IsUnique :
      (i : ℕ) (u : TemplateUpdate) (w : World)
      → IsUnique w.templates
      → IsUnique (update_template k i u w).1.templates
  unfolding update_template
  update_template-IsUnique i u w h =
      Steps-keep (λ v. IsUnique v.templates) (Edit-IsUnique k)
        (Steps-continue _ w _ (select-Edits i w)
          λ o w₁. Steps-continue _ w₁ _ (Steps-or_raise o _ w₁) λ t. update-Edits t.id u)
        h

-- A request that changes templates.
pub data Request : Type 0 where
  posted : TemplateCreate → Request
  put : ℕ → TemplateUpdate → Request

abbrev pub serve : Worker → Request → World → World
serve k (posted c) w = (create_template k c w).1
serve k (put i u) w = (update_template k i u w).1

-- The requests one after another, each served by some process.
unfoldable pub serve_all : List (Worker × Request) → World → World
serve_all [] w = w
serve_all ((k, r) ∷ rs) w = serve_all rs (serve k r w)

-- Any sequence of POST and PUT requests, each served by some process, keeps the ids, and the code,
-- locale and channel together, of the templates unique, whatever the calls of the database do.
pub serve_all-IsUnique :
    (rs : List (Worker × Request)) (w : World)
    → IsUnique w.templates
    → IsUnique (serve_all rs w).templates
unfolding serve_all
serve_all-IsUnique [] w h = h
serve_all-IsUnique ((k, posted c) ∷ rs) w h =
    serve_all-IsUnique rs _ (create_template-IsUnique k c w h)
serve_all-IsUnique ((k, put i u) ∷ rs) w h =
    serve_all-IsUnique rs _ (update_template-IsUnique k i u w h)
