-- ===== src/Api/Events.antt =====
-- notifications_api/services/notification_service.py and api/v1/events.py.
use notification_service_kaf.Prelude.{
  ℕ, String, cat, List, [], ◌∷◌, none, some, ◌⊎◌, inl, inr, length,
}
use notification_service_kaf.Schemas.{NotificationJob, email, normal, text, end, member}
use notification_service_kaf.Events.{
  EventType, user_registered, new_film_released, campaign_triggered, event_name, UserRegistered,
  BaseEvent,
}
use notification_service_kaf.Runtime.{Exc, http_exception, World, Worker}
use notification_service_kaf.Runtime.Monad.{
  Action, Nothing, Result, ok, raised, pure, raise, gets, of_result, ◌>>=◌, ◌>>◌,
}
use notification_service_kaf.Api.Publisher.{publish}

-- _parse_payload, of what the class makes of the payload.
abbrev pub parse_payload : {A : Type 0} → String → A ⊎ String → Result A
parse_payload context (inl p) = ok p
parse_payload context (inr error) =
    raised (http_exception 400 (cat "Invalid payload for " (cat context (cat ": " error))))

-- The job of _map_user_registered.
abbrev pub welcome_job : ℕ → BaseEvent → UserRegistered → ℕ → NotificationJob
welcome_job job_id event p now = record {
  job_id = job_id;
  user_id = p.user_id;
  channel = email;
  template_code = "welcome_email";
  locale = p.locale;
  job_data =
      member "registration_channel" (text p.registration_channel)
        (member "user_agent" (text p.user_agent) end);
  meta = record {
    event_type = event_name event.event_type;
    event_id = some event.event_id;
    campaign_id = none;
    priority = normal;
  };
  created_at = now;
  send_after = none;
  expires_at = none;
}

unfoldable pub map_user_registered : Worker → BaseEvent → ℕ → Action (List NotificationJob)
map_user_registered k event now = do
  p ← of_result (parse_payload "user_registered" (k.libs.parse_user_registered event.payload))
  job_id ← gets (λ w. k.env.uuid4 w.calls)
  pure (welcome_job job_id event p now ∷ [])

abbrev pub not_implemented : String → Exc
not_implemented name =
    http_exception 501 (cat "Event type '" (cat name "' is not implemented in this MVP"))

abbrev pub not_in_mvp : String → Exc
not_in_mvp name = http_exception 501 (cat name " notifications are not implemented in this MVP")

-- Two templates for later events, which nothing calls.
unfoldable pub map_new_film_released : Worker → BaseEvent → ℕ → Action (List NotificationJob)
map_new_film_released k event now = do
  p ← of_result (parse_payload "new_film_released" (k.libs.parse_new_film_released event.payload))
  raise (not_in_mvp "new_film_released")

unfoldable pub map_campaign_triggered : Worker → BaseEvent → ℕ → Action (List NotificationJob)
map_campaign_triggered k event now = do
  p ← of_result (parse_payload "campaign_triggered" (k.libs.parse_campaign_triggered event.payload))
  raise (not_in_mvp "campaign_triggered")

abbrev pub map_by_type : Worker → BaseEvent → ℕ → EventType → Action (List NotificationJob)
map_by_type k event now user_registered = map_user_registered k event now
map_by_type k event now new_film_released = raise (not_implemented "new_film_released")
map_by_type k event now campaign_triggered = raise (not_implemented "campaign_triggered")

unfoldable pub map_event_to_jobs : Worker → BaseEvent → Action (List NotificationJob)
map_event_to_jobs k event = do now ← gets (λ w. w.clock); map_by_type k event now event.event_type

unfoldable pub publish_all : Worker → List NotificationJob → Action Nothing
publish_all k [] = pure tt
publish_all k (job ∷ jobs) = publish k (k.libs.model_dump job) >> publish_all k jobs

unfoldable pub handle_event : Worker → BaseEvent → Action ℕ
handle_event k event = do jobs ← map_event_to_jobs k event; publish_all k jobs; pure (length jobs)

-- receive_event, as the status of its HTTP response; an exception that is no HTTPException is
-- answered with 500.
abbrev pub status_of : Result ℕ → ℕ
status_of (ok jobs_count) = 202
status_of (raised (http_exception status detail)) = status
status_of (raised e) = 500

unfoldable pub receive_event : Worker → BaseEvent → World → ℕ × World
receive_event k event w = let (r, v) = handle_event k event w in (status_of r, v)
