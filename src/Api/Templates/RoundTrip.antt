-- ===== src/Api/Templates/RoundTrip.antt =====
-- Templates that are created, read and updated while the database answers.
use notification_service_kaf.Prelude.{
  ℕ, ◌≡◌, refl, sym, ap, subst, ◌∙◌, List, [], ◌∷◌, none, some, arith, Option-cases, Bool-cases,
  inl, inr, if◌then◌else◌,
}
use notification_service_kaf.Schemas.{Template}
use notification_service_kaf.Runtime.{Exc, http_exception, World, Worker, done, db}
use notification_service_kaf.Runtime.Monad.{ok, raised, continue, tick, ask}
use notification_service_kaf.Worker.Reliable.{ask-done}
use notification_service_kaf.Api.Templates.{
  TemplateCreate, TemplateUpdate, create, update, commit_update, create_template, get_template,
  update_template, select_template, insert_template, new_template, find_by_id, apply_update,
  update_template_row, has_collision,
}
use notification_service_kaf.Api.Templates.Keys.{
  find_by_id-insert_template, find_by_id-update_template_row,
}
use notification_service_kaf.Api.Templates.Replaced.{IsReplaced, apply_update-IsReplaced}

raised-ok : (e : Exc) (t : Template) → raised e ≡ ok t → ⊥
raised-ok e t h = cc

ok-injective : (s t : Template) → ok s ≡ ok t → s ≡ t
ok-injective s t h = cc

find_by_id-id : (i : ℕ) (ts : List Template) (t : Template) → find_by_id i ts ≡ some t → t.id ≡ i
unfolding find_by_id
find_by_id-id i [] t h = absurd (cc)
find_by_id-id i (s ∷ ts) t h = ground (arith, h, find_by_id-id i ts t)

-- The row that a POST inserts.
abbrev pub posted_row : Worker → TemplateCreate → World → Template
posted_row k c w = new_template c (k.env.uuid4 w.calls) (k.env.db_now (tick k w).calls)

module _ (k : Worker) (db_done : (n : ℕ) → k.env.outcome db n ≡ done) where
  select_template-done :
      (i : ℕ) (w : World) → select_template k i w ≡ (ok (find_by_id i w.templates), tick k w)
  unfolding select_template
  select_template-done i w = ask-done k db _ w (db_done w.calls)

  create_template-collision :
      (c : TemplateCreate) (w : World)
      → insert_template (posted_row k c w) w.templates ≡ none
      → create_template k c w ≡ (
        raised (http_exception 409 "Template with this code/locale/channel already exists"),
        tick k w,
      )
  unfolding create_template create continue ask
  create_template-collision c w e = rw (db_done w.calls, e)

  create_template-fresh :
      (c : TemplateCreate) (w : World) (us : List Template)
      → insert_template (posted_row k c w) w.templates ≡ some us
      → create_template k c w
        ≡ (ok (posted_row k c w), tick k (record (tick k w) { templates = us }))
  unfolding create_template create continue ask select_template
  create_template-fresh c w us e = rw (
    db_done w.calls,
    e,
    db_done (tick k w).calls,
    find_by_id-insert_template (posted_row k c w) w.templates us e,
  )

  -- Where the database answers, the template that POST answers with is the one that GET answers
  -- with for its id in the state that the POST leaves.
  pub create_template-get_template :
      (c : TemplateCreate) (w : World) (t : Template)
      → (create_template k c w).0 ≡ ok t
      → (get_template k t.id (create_template k c w).1).0 ≡ ok t
  unfolding get_template continue
  create_template-get_template c w t h =
      elim (Option-cases (insert_template (posted_row k c w) w.templates)) [
        | inl e ↦ absurd (raised-ok _ t (ap (λ p. p.0) (sym (create_template-collision c w e)) ∙ h))
        | inr (us, e) ↦
            let row : posted_row k c w ≡ t =
              ok-injective _ t (ap (λ p. p.0) (sym (create_template-fresh c w us e)) ∙ h) in
            subst (λ u. (get_template k u.id (create_template k c w).1).0 ≡ ok u) row
              (rw
                (
                  create_template-fresh c w us e,
                  select_template-done,
                  find_by_id-insert_template (posted_row k c w) w.templates us e,
                )
                refl)
      ]

  -- Where the database answers, POST answers 409 and keeps the templates if the id or the code,
  -- locale and channel are taken; else it answers with the new row, and adds it to the templates.
  pub create_template-has_collision :
      (c : TemplateCreate) (w : World)
      → let p = create_template k c w in
        if has_collision (posted_row k c w) w.templates
        then ((p.0
              ≡ raised (http_exception 409 "Template with this code/locale/channel already exists"))
            × (p.1.templates ≡ w.templates))
        else ((p.0 ≡ ok (posted_row k c w)) × (p.1.templates ≡ posted_row k c w ∷ w.templates))
  unfolding insert_template
  create_template-has_collision c w =
      elim (Bool-cases (has_collision (posted_row k c w) w.templates)) [
        | inl e ↦ rw (e, create_template-collision c w (rw e)) (refl, refl)
        | inr e ↦
            rw (e, create_template-fresh c w (posted_row k c w ∷ w.templates) (rw e)) (refl, refl)
      ]

  -- The templates after a PUT.
  abbrev put_world : ℕ → TemplateUpdate → World → World
  put_world i u w = record (tick k w) {
    templates = update_template_row i u (k.env.db_now (tick k w).calls) w.templates;
  }

  update-done :
      (i : ℕ) (u : TemplateUpdate) (w : World) (r : Template)
      → find_by_id i (put_world i u w).templates ≡ some r
      → update k i u w ≡ (ok r, tick k (put_world i u w))
  unfolding update continue
  update-done i u w r h = rw (
    ask-done k db (commit_update k i u) w (db_done w.calls),
    select_template-done i (put_world i u w),
    h,
  )

  update_template-done :
      (i : ℕ) (u : TemplateUpdate) (w : World) (t : Template)
      → find_by_id i w.templates ≡ some t
      → update_template k i u w ≡ (
        ok (apply_update u (k.env.db_now (tick k (tick k w)).calls) t),
        tick k (put_world i u (tick k w)),
      )
  unfolding update_template continue
  update_template-done i u w t h =
      rw (select_template-done i w, h)
        (ap (λ j. update k j u (tick k w)) (find_by_id-id i w.templates t h)
          ∙ update-done i u (tick k w) _ (
              find_by_id-update_template_row i u (k.env.db_now (tick k (tick k w)).calls)
                w.templates t h))

  get_template-found :
      (i : ℕ) (w : World) (t : Template)
      → find_by_id i w.templates ≡ some t
      → (get_template k i w).0 ≡ ok t
  unfolding get_template continue
  get_template-found i w t h = rw (select_template-done i w, h)

  -- Where the database answers, PUT of a template that exists answers with a row that has the
  -- subject and the body that were given, the old ones where none was given, and the id, code,
  -- locale, channel and instant of creation that it had; and GET then answers with the same row.
  pub update_template-get_template :
      (i : ℕ) (u : TemplateUpdate) (w : World) (t : Template)
      → find_by_id i w.templates ≡ some t
      → (s : Template) × ((update_template k i u w).0 ≡ ok s)
        × ((get_template k i (update_template k i u w).1).0 ≡ ok s)
        × IsReplaced u t s
  update_template-get_template i u w t h =
      let stamp = k.env.db_now (tick k (tick k w)).calls in
      (
        apply_update u stamp t,
        rw (update_template-done i u w t h) refl,
        rw (update_template-done i u w t h) (
            get_template-found i (tick k (put_world i u (tick k w))) _
              (find_by_id-update_template_row i u stamp w.templates t h)),
        apply_update-IsReplaced u stamp t,
      )
