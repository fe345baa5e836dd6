-- ===== src/Tests/ApiTests.antt =====
-- The theorems on the API and on the scheduler at concrete inputs.
use notification_service_kaf.Prelude.{◌≡◌, refl, [], ◌∷◌, ◌++◌, map, some, none, false}
use notification_service_kaf.Worker.Repo
use notification_service_kaf.Schemas.{Template, email, end}
use notification_service_kaf.Events.{BaseEvent, user_registered}
use notification_service_kaf.Campaigns.{Campaign, active}
use notification_service_kaf.Runtime.{World, Worker, Env, responded, http_exception}
use notification_service_kaf.Runtime.Monad.{ok, raised, continue, ask}
use notification_service_kaf.Api.Publisher.{start, is_ready}
use notification_service_kaf.Api.Starting.{IsDecided, start-IsDecided}
use notification_service_kaf.Api.Events.{receive_event}
use notification_service_kaf.Api.Answers.{
  expected_jobs, receive_event-expected_status, receive_event-expected_jobs, receive_event-degraded,
}
use notification_service_kaf.Api.Templates.{
  TemplateCreate, TemplateUpdate, create_template, update_template, get_template, has_collision,
  find_by_id, insert_template, create, select_template,
}
use notification_service_kaf.Api.Templates.Keys.{IsUnique}
use notification_service_kaf.Api.Templates.Replaced.{IsReplaced}
use notification_service_kaf.Api.Templates.RoundTrip.{
  posted_row, create_template-get_template, create_template-has_collision,
  update_template-get_template,
}
use notification_service_kaf.Api.Endpoints.{posted, put, serve_all, serve_all-IsUnique}
use notification_service_kaf.Scheduler.{process_tick}
use notification_service_kaf.Scheduler.Runs.{process_tick-campaigns}
use notification_service_kaf.Tests.Samples.{
  sample_worker, sample_world, sample_libs, sample_template, calm,
}

abbrev pub initial : World
initial = sample_world []

abbrev pub api : Worker
api = sample_worker calm

-- A campaign with one run left.
abbrev sample_campaign : Campaign
sample_campaign = record {
  id = 1;
  name = "spring";
  template_code = "welcome_email";
  segment_id = "all";
  schedule_cron = "* * * * *";
  status = active;
  created_at = 0;
  updated_at = 0;
  last_triggered_at = none;
  runs_count = 2;
  max_runs = some 3;
}

abbrev pub campaign_world : World
campaign_world = record initial { campaigns = sample_campaign ∷ [] }

abbrev wired_env : Env
wired_env = record calm { post_reply = λ n e. responded (receive_event api e initial).0 }

process_tick-campaigns_example :
    (process_tick (sample_worker wired_env) 60 campaign_world).1.campaigns ≡ sample_campaign ∷ []
process_tick-campaigns_example =
    process_tick-campaigns (sample_worker wired_env) api (λ n. initial) (λ n e. refl) 60
      campaign_world

abbrev pub sample_event : BaseEvent
sample_event = record {
  event_id = 11;
  event_type = user_registered;
  source = "auth";
  occurred_at = 0;
  payload = end;
}

receive_event-expected_status_example : (receive_event api sample_event initial).0 ≡ 202
receive_event-expected_status_example =
    receive_event-expected_status api (λ n. tt) sample_event initial

receive_event-expected_jobs_example :
    (receive_event api sample_event initial).1.outbox
    ≡ map sample_libs.model_dump (
        expected_jobs sample_event 0 1000000000 user_registered
          (sample_libs.parse_user_registered end))
      ++ []
unfolding is_ready
receive_event-expected_jobs_example = receive_event-expected_jobs api sample_event initial refl refl

abbrev degraded_world : World
degraded_world = record initial { publisher_enabled = false; publisher_started = false }

receive_event-degraded_example :
    receive_event api sample_event degraded_world ≡ (202, degraded_world)
unfolding is_ready
receive_event-degraded_example =
    receive_event-degraded api sample_event degraded_world (λ n. tt) refl

abbrev pub stopped_world : World
stopped_world = record initial { publisher_started = false }

start-IsDecided_example : IsDecided (start api stopped_world)
start-IsDecided_example = start-IsDecided api (λ n. tt) (λ n. refl) stopped_world refl

abbrev sample_create : TemplateCreate
sample_create = record {
  template_code = "digest";
  locale = "en";
  channel = email;
  subject = none;
  body = "Hello";
}

create_template-get_template_example :
    (get_template api 0 (create_template api sample_create initial).1).0
    ≡ ok (posted_row api sample_create initial)
unfolding create_template create select_template continue ask insert_template has_collision
    find_by_id
create_template-get_template_example =
    create_template-get_template api (λ n. refl) sample_create initial
      (posted_row api sample_create initial) refl

abbrev same_key : TemplateCreate
same_key = record sample_create { template_code = "welcome_email" }

create_template-has_collision_example :
    let p = create_template api same_key initial in
    (p.0 ≡ raised (http_exception 409 "Template with this code/locale/channel already exists"))
    × (p.1.templates ≡ sample_template ∷ [])
unfolding has_collision
create_template-has_collision_example =
    create_template-has_collision api (λ n. refl) same_key initial

abbrev sample_update : TemplateUpdate
sample_update = record { subject = none; body = some "Bye" }

update_template-get_template_example :
    let p = update_template api 3 sample_update initial in
    (s : Template) × (p.0 ≡ ok s)
    × ((get_template api 3 p.1).0 ≡ ok s)
    × IsReplaced sample_update sample_template s
unfolding find_by_id
update_template-get_template_example =
    update_template-get_template api (λ n. refl) 3 sample_update initial sample_template refl

serve_all-IsUnique_example :
    IsUnique
      (serve_all ((api, posted sample_create) ∷ (api, put 3 sample_update) ∷ []) initial).templates
unfolding has_collision
serve_all-IsUnique_example =
    serve_all-IsUnique ((api, posted sample_create) ∷ (api, put 3 sample_update) ∷ []) initial
      (refl, tt)
