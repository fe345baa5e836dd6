-- ===== src/Worker/Repo.antt =====
-- worker/repositories: NotificationDeliveryRepository and TemplateRepository. A statement and the
-- acquisition of its connection are one call of the database.
use notification_service_kaf.Prelude.{
  ℕ, ◌-◌, ◌*◌, String, List, [], ◌∷◌, Option, none, some, Bool, true, false, if◌then◌else◌,
}
use notification_service_kaf.Schemas.{NotificationDelivery, Template, has_key}
use notification_service_kaf.Deliveries.{Table, find_row, insert_claim, update_claim, upsert, Saved}
use notification_service_kaf.Runtime.{World, Worker, db}
use notification_service_kaf.Runtime.Monad.{Action, Nothing, pure, gets, ◌>>=◌, call, ask}

-- Seconds in microseconds.
abbrev pub seconds : ℕ → ℕ
seconds n = n * 1000000

unfoldable pub get_by_job_id : Worker → ℕ → Action (Option NotificationDelivery)
get_by_job_id k j = ask k db (λ w. (find_row j w.deliveries, w))

-- A statement that changes the deliveries and reports a count.
abbrev pub on_deliveries : {A : Type 0} → (Table → Table × A) → World → A × World
on_deliveries f w = let (t, a) = f w.deliveries in (a, record w { deliveries = t })

abbrev pub try_insert : Worker → ℕ → ℕ → String → ℕ → World → Bool × World
try_insert k j user channel now w =
    on_deliveries (insert_claim j user channel now (k.env.db_now w.calls)) w

abbrev pub try_update : Worker → ℕ → ℕ → ℕ → World → Bool × World
try_update k j now stale_before w =
    on_deliveries (update_claim j now stale_before (k.env.db_now w.calls)) w

-- The default of `stale_after_seconds`, which no caller overrides.
abbrev pub stale_after_seconds : ℕ
stale_after_seconds = 300

-- The instant before which a claim is stale. Instants start at the epoch, so a difference that
-- stops there bounds the same instants as the true one.
abbrev pub stale_before : ℕ → ℕ
stale_before now = now - seconds stale_after_seconds

abbrev pub claim_by_update : Worker → ℕ → ℕ → Bool → Action Bool
claim_by_update k j now true = pure true
claim_by_update k j now false = ask k db (try_update k j now (stale_before now))

unfoldable pub try_claim_job : Worker → ℕ → ℕ → String → Action Bool
try_claim_job k j user channel = do
  now ← gets (λ w. w.clock)
  inserted ← ask k db (try_insert k j user channel now)
  claim_by_update k j now inserted

abbrev pub write_status : Worker → Saved → World → World
write_status k s w = record w { deliveries = upsert s (k.env.db_now w.calls) w.deliveries }

unfoldable pub save_status : Worker → Saved → Action Nothing
save_status k s = call k db (write_status k s)

-- SELECT … WHERE template_code = $1 AND locale = $2 AND channel = $3 LIMIT 1.
abbrev pub find_template : String → String → String → List Template → Option Template
find_template code locale channel [] = none
find_template code locale channel (t ∷ ts) =
    if has_key code locale channel t then some t else find_template code locale channel ts

unfoldable pub get_template : Worker → String → String → String → Action (Option Template)
get_template k code locale channel =
    ask k db (λ w. (find_template code locale channel w.templates, w))
