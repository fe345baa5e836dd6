-- ===== src/Scheduler.antt =====
-- campaign_scheduler/service/scheduler_service.py, and the calls of campaigns_repo.py.
pub mod Runs
pub mod Within
pub mod Tick
pub mod Loop
pub mod Lasting
use notification_service_kaf.Prelude.{
  ℕ, ◌+◌, ◌≤◌, String, List, [], ◌∷◌, Option, none, some, Bool, true, false, ◌&&◌, leb, ltb,
  if◌then◌else◌,
}
use notification_service_kaf.Schemas.{Json, text, array, cons, nil, object, member, end, Members}
use notification_service_kaf.Events.{BaseEvent, campaign_triggered}
use notification_service_kaf.Campaigns.{
  Campaign, active_campaigns, sort_by_created, update_triggered, is_campaign_due,
}
use notification_service_kaf.Runtime.{
  Exc, other_error, World, Worker, PostReply, broken, responded, db,
}
use notification_service_kaf.Runtime.Monad.{
  Action, Nothing, Result, ok, raised, pure, raise, gets, ◌>>=◌, ◌>>◌, catch, tick, call, ask,
  sleep,
}
use notification_service_kaf.Worker.Repo.{seconds}

unfoldable pub get_active_campaigns : Worker → Action (List Campaign)
get_active_campaigns k =
    ask k db
      (λ w. (sort_by_created (k.env.campaign_rank w.calls) (active_campaigns w.campaigns), w))

abbrev pub write_triggered : Worker → ℕ → World → World
write_triggered k i w = record w {
  campaigns = update_triggered i (k.env.db_now w.calls) w.campaigns;
}

unfoldable pub mark_campaign_triggered : Worker → ℕ → Action Nothing
mark_campaign_triggered k i = call k db (write_triggered k i)

-- CampaignTriggeredEventPayload.model_dump(mode="json").
abbrev pub campaign_payload : Worker → Campaign → Members
campaign_payload k c = member "campaign_id" (text (k.libs.uuid_text c.id)) (
    member "template_code" (text c.template_code) (
      member "channels" (array (cons (text "email") nil))
        (member "segment" (object (member "segment_id" (text c.segment_id) end)) end)))

-- _build_event
abbrev pub build_event : Worker → Campaign → World → BaseEvent
build_event k c w = record {
  event_id = k.env.uuid4 w.calls;
  event_type = campaign_triggered;
  source = "campaign_scheduler";
  occurred_at = w.clock;
  payload = campaign_payload k c;
}

-- raise_for_status: all but a 2xx response raises.
abbrev pub is_success : ℕ → Bool
is_success status = leb 200 status && ltb status 300

abbrev pub checked : PostReply → World → Result Nothing × World
checked (broken e) w = (raised e, w)
checked (responded status) w =
    if is_success status then (ok tt, w) else (raised (other_error "HTTPStatusError"), w)

-- client.post(url, json=…) and raise_for_status.
unfoldable pub post_event : Worker → BaseEvent → Action Nothing
post_event k event w =
    checked (k.env.post_reply w.calls event) (record (tick k w) { posted = event ∷ w.posted })

-- try: post … except httpx.HTTPError: return, except Exception: return.
abbrev pub try_post : Worker → Campaign → Action Bool
try_post k c = do
  event ← gets (build_event k c)
  catch (post_event k event >> pure true) (λ e. pure false)

abbrev pub mark_if : Worker → ℕ → Bool → Action Nothing
mark_if k i true = catch (mark_campaign_triggered k i) (λ e. pure tt)
mark_if k i false = pure tt

unfoldable pub process_campaign : Worker → Campaign → ℕ → Action Nothing
process_campaign k c now =
    if is_campaign_due k.libs.next_run c now then try_post k c >>= mark_if k c.id else pure tt

unfoldable pub process_campaigns : Worker → ℕ → List Campaign → Action Nothing
process_campaigns k now [] = pure tt
process_campaigns k now (c ∷ cs) = process_campaign k c now >> process_campaigns k now cs

-- The campaigns, or None where the query raised.
abbrev pub try_fetch : Worker → Action (Option (List Campaign))
try_fetch k = catch (get_active_campaigns k >>= λ cs. pure (some cs)) (λ e. pure none)

abbrev pub process_fetched : Worker → ℕ → Option (List Campaign) → Action Nothing
process_fetched k now none = pure tt
process_fetched k now (some cs) = process_campaigns k now cs

-- One tick; `poll_interval` in seconds.
unfoldable pub process_tick : Worker → ℕ → Action Nothing
process_tick k poll_interval = do
  now ← gets (λ w. w.clock)
  fetched ← try_fetch k
  process_fetched k now fetched
  sleep k (seconds poll_interval)
