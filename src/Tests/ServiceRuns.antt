-- ===== src/Tests/ServiceRuns.antt =====
-- The theorems on ticks of the scheduler, pages of templates, the wait of a job and the retry delays
-- at concrete inputs.
use notification_service_kaf.Prelude.{
  if◌then◌else◌, ◌==◌, ◌-◌, ◌≡◌, refl, List, [], ◌∷◌, arith, none, some,
}
use mathlib.Core.List.{Perm}
use notification_service_kaf.Schemas.{Template}
use notification_service_kaf.Campaigns.{Campaign, active, paused}
use notification_service_kaf.Runtime.{World, Env}
use notification_service_kaf.Runtime.Monad.{ok, ask, continue}
use notification_service_kaf.Api.Templates.Order.{IsNewestFirst}
use notification_service_kaf.Api.Templates.Pages.{read_pages, read_pages-IsNewestFirst}
use notification_service_kaf.Api.Templates.{list_templates, list_page, newest_first, insert_newest}
use notification_service_kaf.Text.{strip, split, lstrip, rstrip}
use notification_service_kaf.Schemas.{NotificationJob}
use notification_service_kaf.Config.{retry_delays_seconds, floats}
use notification_service_kaf.Config.Delays.{Piece, retry_delays_seconds-joined}
use notification_service_kaf.Worker.Processor.{handle_job}
use notification_service_kaf.Worker.Reliable.{IsReliable}
use notification_service_kaf.Worker.Attempt.{IsUncut}
use notification_service_kaf.Worker.Delivery.{IsDelayed, waited_world, handle_job-IsDelayed}
use notification_service_kaf.Tests.Samples.{
  sample_template, sample_job, sample_libs, sample_settings, sample_worker, calm,
}
use notification_service_kaf.Tests.ApiTests.{initial, api}

abbrev spring : Campaign
spring = record {
  id = 1;
  name = "spring";
  template_code = "welcome_email";
  segment_id = "all";
  schedule_cron = "* * * * *";
  status = active;
  created_at = 5;
  updated_at = 5;
  last_triggered_at = none;
  runs_count = 2;
  max_runs = some 3;
}

abbrev autumn : Campaign
autumn = record spring {
  id = 2;
  name = "autumn";
  created_at = 3;
  last_triggered_at = some 4;
  max_runs = none;
}

abbrev winter : Campaign
winter = record spring { id = 3; name = "winter"; status = paused }

abbrev with_campaigns : World
with_campaigns = record initial { campaigns = spring ∷ autumn ∷ winter ∷ [] }

abbrev second_template : Template
second_template = record sample_template { id = 4; locale = "fr"; created_at = 7 }

abbrev with_templates : World
with_templates = record initial { templates = sample_template ∷ second_template ∷ [] }

read_pages-IsNewestFirst_example :
    (l : List Template) × ((read_pages api 1 2 0 with_templates).0 ≡ ok l)
    × Perm l (sample_template ∷ second_template ∷ [])
    × IsNewestFirst l
read_pages-IsNewestFirst_example =
    read_pages-IsNewestFirst api (λ n. refl) 1 (omega arith) (omega arith) 2 with_templates
      ((omega arith, tt), (tt, tt)) (omega arith)

-- Two templates of one instant, whose order differs between two queries: both pages hold the same one.
abbrev tied_template : Template
tied_template = record second_template { created_at = sample_template.created_at }

abbrev tied_env : Env
tied_env = record calm { template_rank = λ n t. if n == 1 then t.id else 10 - t.id }

tied_pages :
    let w = record initial { templates = sample_template ∷ tied_template ∷ [] } in
    (read_pages (sample_worker tied_env) 1 2 0 w).0 ≡ ok (sample_template ∷ sample_template ∷ [])
unfolding read_pages list_templates list_page newest_first insert_newest ask continue
tied_pages = refl

-- A job that expires while the worker waits for its send_after.
abbrev late_job : NotificationJob
late_job = record sample_job { send_after = some 1060000000; expires_at = some 1000000100 }

api-IsReliable : IsReliable api
api-IsReliable = record { db_done = λ n. refl; kafka_done = λ n. refl; timer_done = λ n. refl }

api-IsUncut : IsUncut api
api-IsUncut = record {
  smtp_caught = λ n. tt;
  auth_caught = λ n. refl;
  formats_calmly = λ s v e h. absurd (cc);
}

handle_job-IsDelayed_example :
    IsDelayed api late_job initial
      (waited_world api late_job initial)
      (handle_job api late_job initial)
unfolding retry_delays_seconds floats strip split
handle_job-IsDelayed_example =
    handle_job-IsDelayed api api-IsReliable api-IsUncut late_job (1000000 ∷ 1000000 ∷ 1000000 ∷ [])
      refl initial (omega arith) (omega arith)

abbrev pieces : List Piece
pieces = (" 3", some 1000000) ∷ ("", none) ∷ ("10", some 1000000) ∷ []

retry_delays_seconds-joined_example :
    retry_delays_seconds sample_libs sample_settings ≡ ok (1000000 ∷ 1000000 ∷ 1000000 ∷ [])
unfolding strip lstrip rstrip
retry_delays_seconds-joined_example =
    retry_delays_seconds-joined sample_libs sample_settings ("1", some 1000000) pieces
      (
        ((refl, tt), refl, refl),
        (((refl, (refl, tt)), refl, refl), ((tt, refl), (((refl, (refl, tt)), refl, refl), tt))),
      )
      refl
