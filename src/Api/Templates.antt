-- ===== src/Api/Templates.antt =====
-- notifications_api/repositories/templates.py and api/v1/templates.py. A commit is one call of the
-- database; the columns that a TemplateRead shows are those of the row.
pub mod Keys
pub mod Replaced
pub mod RoundTrip
pub mod Lookup
pub mod Order
pub mod Pages
use notification_service_kaf.Prelude.{
  ℕ, String, List, [], ◌∷◌, Option, none, some, Bool, true, false, not, ◌&&◌, ◌||◌, leb, ltb, ◌==◌,
  str_eq, take, drop, if◌then◌else◌,
}
use notification_service_kaf.Schemas.{Template, NotificationChannel, value, has_key}
use notification_service_kaf.Runtime.{
  Exc, other_error, integrity_error, http_exception, World, Worker, db,
}
use notification_service_kaf.Runtime.Monad.{
  Action, Result, ok, raised, pure, raise, gets, or_raise, of_result, ◌>>=◌, ◌>>◌, ask,
}

-- class TemplateCreate.
pub record TemplateCreate : Type 0 where
  pub template_code : String
  pub locale : String
  pub channel : NotificationChannel
  pub subject : Option String
  pub body : String

-- class TemplateUpdate.
pub record TemplateUpdate : Type 0 where
  pub subject : Option String
  pub body : Option String

-- The row of `Template(id=uuid4(), …)`.
abbrev pub new_template : TemplateCreate → ℕ → ℕ → Template
new_template c i stamp = record {
  id = i;
  template_code = c.template_code;
  locale = c.locale;
  channel = value c.channel;
  subject = c.subject;
  body = c.body;
  created_at = stamp;
  updated_at = stamp;
}

-- The primary key, or uq_template_code_locale_channel.
abbrev pub collides : Template → Template → Bool
collides t u = u.id == t.id || has_key t.template_code t.locale t.channel u

unfoldable pub has_collision : Template → List Template → Bool
has_collision t [] = false
has_collision t (u ∷ us) = collides t u || has_collision t us

-- The INSERT of a commit; `none` is an IntegrityError.
unfoldable pub insert_template : Template → List Template → Option (List Template)
insert_template t ts = if has_collision t ts then none else some (t ∷ ts)

-- SELECT … WHERE id = …, scalar_one_or_none.
unfoldable pub find_by_id : ℕ → List Template → Option Template
find_by_id i [] = none
find_by_id i (t ∷ ts) = if t.id == i then some t else find_by_id i ts

-- SELECT … WHERE template_code = … AND locale = … AND channel = ….
unfoldable pub select_key : String → String → String → List Template → List Template
select_key code locale channel [] = []
select_key code locale channel (t ∷ ts) =
    let rest = select_key code locale channel ts in
    if has_key code locale channel t then t ∷ rest else rest

-- scalar_one_or_none.
abbrev pub one_or_none : List Template → Result (Option Template)
one_or_none [] = ok none
one_or_none (t ∷ []) = ok (some t)
one_or_none (t ∷ u ∷ ts) = raised (other_error "MultipleResultsFound")

unfoldable pub find_by_code_locale_channel :
    Worker → String → String → NotificationChannel → Action (Option Template)
find_by_code_locale_channel k code locale channel = do
  rows ← ask k db (λ w. (select_key code locale (value channel) w.templates, w))
  of_result (one_or_none rows)

abbrev pub inserted : Template → List Template → Option (List Template) → List Template
inserted t ts none = ts
inserted t ts (some us) = us

abbrev pub created : Template → Option (List Template) → Option Template
created t none = none
created t (some us) = some t

abbrev pub commit_new : Worker → TemplateCreate → ℕ → World → Option Template × World
commit_new k c i w =
    let t = new_template c i (k.env.db_now w.calls) in
    let after = insert_template t w.templates in
    (created t after, record w { templates = inserted t w.templates after })

-- `session.refresh`, or a SELECT by id.
unfoldable pub select_template : Worker → ℕ → Action (Option Template)
select_template k i = ask k db (λ w. (find_by_id i w.templates, w))

abbrev pub gone : Exc
gone = other_error "Could not refresh instance"

-- TemplateRepository.create
unfoldable pub create : Worker → TemplateCreate → Action Template
create k c = do
  i ← gets (λ w. k.env.uuid4 w.calls)
  made ← ask k db (commit_new k c i)
  or_raise made (integrity_error "uq_template_code_locale_channel")
  refreshed ← select_template k i
  or_raise refreshed gone

abbrev pub or_kept : {A : Type 0} → Option A → A → A
or_kept none a = a
or_kept (some b) a = b

abbrev pub or_kept_option : {A : Type 0} → Option A → Option A → Option A
or_kept_option none a = a
or_kept_option (some b) a = some b

-- The assignments of TemplateRepository.update, and the UPDATE of the commit.
abbrev pub updated : TemplateUpdate → ℕ → Template → Template
updated u stamp t = record t {
  subject = or_kept_option u.subject t.subject;
  body = or_kept u.body t.body;
  updated_at = stamp;
}

-- SQLAlchemy writes a row, and its `onupdate` stamp, only if a column has changed.
abbrev pub same_subject : Option String → Option String → Bool
same_subject none s = true
same_subject (some a) none = false
same_subject (some a) (some b) = str_eq a b

abbrev pub same_body : Option String → String → Bool
same_body none s = true
same_body (some a) s = str_eq a s

abbrev pub apply_update : TemplateUpdate → ℕ → Template → Template
apply_update u stamp t =
    if same_subject u.subject t.subject && same_body u.body t.body then t else updated u stamp t

unfoldable pub update_template_row : ℕ → TemplateUpdate → ℕ → List Template → List Template
update_template_row i u stamp [] = []
update_template_row i u stamp (t ∷ ts) =
    if t.id == i then apply_update u stamp t ∷ ts else t ∷ update_template_row i u stamp ts

abbrev pub commit_update : Worker → ℕ → TemplateUpdate → World → Unit {0} × World
commit_update k i u w =
    (tt, record w { templates = update_template_row i u (k.env.db_now w.calls) w.templates })

-- TemplateRepository.update
unfoldable pub update : Worker → ℕ → TemplateUpdate → Action Template
update k i u = do
  ask k db (commit_update k i u)
  refreshed ← select_template k i
  or_raise refreshed gone

-- ORDER BY created_at DESC: the newer row first. Which of two rows of one instant comes first is up to
-- the database, and may differ from one query to the next.
abbrev pub is_before : (Template → ℕ) → Template → Template → Bool
is_before rank t u =
    if t.created_at == u.created_at then leb (rank t) (rank u) else ltb u.created_at t.created_at

unfoldable pub insert_newest : (Template → ℕ) → Template → List Template → List Template
insert_newest rank t [] = t ∷ []
insert_newest rank t (u ∷ us) =
    let rest = insert_newest rank t us in if is_before rank t u then t ∷ u ∷ us else u ∷ rest

unfoldable pub newest_first : (Template → ℕ) → List Template → List Template
newest_first rank [] = []
newest_first rank (t ∷ ts) = insert_newest rank t (newest_first rank ts)

abbrev pub page : Worker → ℕ → ℕ → World → List Template
page k offset limit w =
    take limit (drop offset (newest_first (k.env.template_rank w.calls) w.templates))

unfoldable pub list_page : Worker → ℕ → ℕ → Action (List Template)
list_page k offset limit = ask k db (λ w. (page k offset limit w, w))

-- GET /templates; FastAPI answers 422 itself where `limit` is out of the bounds of its Query.
unfoldable pub list_templates : Worker → ℕ → ℕ → Action (List Template)
list_templates k offset limit =
    if ltb 0 limit && leb limit 1000
    then list_page k offset limit
    else raise (http_exception 422 "Unprocessable Content")

-- except IntegrityError
abbrev pub conflict : {A : Type 0} → Result A × World → Result A × World
conflict (raised (integrity_error m), w) =
    (raised (http_exception 409 "Template with this code/locale/channel already exists"), w)
conflict (r, w) = (r, w)

-- POST /templates
unfoldable pub create_template : Worker → TemplateCreate → Action Template
create_template k c w = conflict (create k c w)

abbrev pub not_found : Exc
not_found = http_exception 404 "Template not found"

-- GET /templates/{template_id}
unfoldable pub get_template : Worker → ℕ → Action Template
get_template k i = do found ← select_template k i; or_raise found not_found

-- PUT /templates/{template_id}
unfoldable pub update_template : Worker → ℕ → TemplateUpdate → Action Template
update_template k i u = do
  found ← select_template k i
  t ← or_raise found not_found
  update k t.id u
