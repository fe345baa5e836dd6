-- ===== src/Api/Templates/Pages.antt =====
-- The pages of GET /templates.
use notification_service_kaf.Prelude.{
  ℕ, zero, suc, ◌+◌, ◌*◌, ◌-◌, ◌≤◌, ◌<◌, ◌≡◌, refl, ap, ◌∙◌, sym, List, [], ◌∷◌, ◌++◌, true, arith,
  leb, ltb, length, take, drop, ◌&&◌,
}
use mathlib.Core.List.{Perm}
use notification_service_kaf.Schemas.{Template}
use notification_service_kaf.Runtime.{World, Worker, db, done}
use notification_service_kaf.Runtime.Monad.{Action, ok, pure, ◌>>=◌, continue, tick}
use notification_service_kaf.Worker.Reliable.{ask-done}
use notification_service_kaf.Api.Templates.{list_templates, list_page, newest_first}
use notification_service_kaf.Api.Templates.Order.{
  IsNewestFirst, HasInstants, newest_first-IsNewestFirst, newest_first-Perm, length-newest_first,
  newest_first-untied,
}

-- A client that reads `n` pages in a row.
unfoldable pub read_pages : Worker → ℕ → ℕ → ℕ → Action (List Template)
read_pages k limit zero offset = pure []
read_pages k limit (suc n) offset = do
  page ← list_templates k offset limit
  rest ← read_pages k limit n (offset + limit)
  pure (page ++ rest)

abbrev paged : ℕ → ℕ → List Template → List Template
paged limit zero l = []
paged limit (suc n) l = take limit l ++ paged limit n (drop limit l)

empty_pages : (limit n : ℕ) → paged limit n [] ≡ []
empty_pages limit zero = refl
empty_pages zero (suc n) = empty_pages zero n
empty_pages (suc m) (suc n) = empty_pages (suc m) n

take-drop : (m : ℕ) (l : List Template) → take m l ++ drop m l ≡ l
take-drop zero l = refl
take-drop (suc m) [] = refl
take-drop (suc m) (t ∷ l) = ap (λ r. t ∷ r) (take-drop m l)

length-drop : (m : ℕ) (l : List Template) → length (drop m l) ≡ length l - m
length-drop zero l = omega arith
length-drop (suc m) [] = omega arith
length-drop (suc m) (t ∷ l) = omega (arith, length-drop m l)

drop-drop : (m n : ℕ) (l : List Template) → drop n (drop m l) ≡ drop (m + n) l
drop-drop zero n l = ap (λ i. drop i l) (omega arith)
drop-drop (suc m) n [] = empty_drop n ∙ sym (empty_drop (suc m + n))
  where
    empty_drop : (i : ℕ) → drop {A = Template} i [] ≡ []
    empty_drop zero = refl
    empty_drop (suc i) = refl
drop-drop (suc m) n (t ∷ l) =
    let e : suc m + n ≡ suc (m + n) = omega arith in rw e (drop-drop m n l)

paged_all : (limit n : ℕ) (l : List Template) → length l ≤ n * limit → paged limit n l ≡ l
paged_all limit zero [] h = refl
paged_all limit zero (t ∷ l) h = absurd (omega arith)
paged_all limit (suc n) l h =
    ap (λ r. take limit l ++ r)
      (paged_all limit n (drop limit l) (omega (arith, length-drop limit l)))
    ∙ take-drop limit l

module _ (k : Worker) (db_done : (n : ℕ) → k.env.outcome db n ≡ done) (limit : ℕ)
    (some_rows : 0 < limit) (few_rows : limit ≤ 1000) where
  list_templates-done :
      (rank : Template → ℕ) (offset : ℕ) (w : World)
      → HasInstants w.templates
      → list_templates k offset limit w
        ≡ (ok (take limit (drop offset (newest_first rank w.templates))), tick k w)
  unfolding list_templates list_page
  list_templates-done rank offset w h =
      let within : (ltb 0 limit && leb limit 1000) ≡ true = ground arith in
      rw
        (
          within,
          ask-done k db _ w (db_done w.calls),
          newest_first-untied (k.env.template_rank (suc w.calls)) rank w.templates h,
        )
        refl

  read_pages-paged :
      (rank : Template → ℕ) (n offset : ℕ) (w : World)
      → HasInstants w.templates
      → (v : World) × (read_pages k limit n offset w
          ≡ (ok (paged limit n (drop offset (newest_first rank w.templates))), v))
  unfolding read_pages continue
  read_pages-paged rank zero offset w h = (w, refl)
  read_pages-paged rank (suc n) offset w h =
      let (v, e) = read_pages-paged rank n (offset + limit) (tick k w) h in
      (
        v,
        rw
            (
              list_templates-done rank offset w h,
              e,
              drop-drop offset limit (newest_first rank w.templates),
            )
            refl,
      )

  -- Where the database works, the limit is from 1 to 1000 and no two templates were created at the
  -- same instant, a client that reads as many consecutive pages of GET /templates as the table
  -- fills, while it does not change, gets every template exactly once, the newest first, in
  -- whatever order each query would give rows of one instant.
  pub read_pages-IsNewestFirst :
      (n : ℕ) (w : World)
      → HasInstants w.templates
      → length w.templates ≤ n * limit
      → (l : List Template) × ((read_pages k limit n 0 w).0 ≡ ok l)
        × Perm l w.templates
        × IsNewestFirst l
  read_pages-IsNewestFirst n w i h =
      let rank = k.env.template_rank 0 in
      let l = newest_first rank w.templates in
      let (v, e) = read_pages-paged rank n 0 w i in
      (
        l,
        rw e (ap ok (paged_all limit n l (omega (arith, h, length-newest_first rank w.templates)))),
        newest_first-Perm rank w.templates,
        newest_first-IsNewestFirst rank w.templates,
      )
