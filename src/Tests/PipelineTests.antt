-- ===== src/Tests/PipelineTests.antt =====
-- The theorem on streams of events at a concrete input.
use notification_service_kaf.Prelude.{
  ℕ, refl, List, [], ◌∷◌, ◌==◌, Option, arith, some, none, true, false,
}
use notification_service_kaf.Text.{strip, split}
use notification_service_kaf.Schemas.{
  Json, null, bool, number, text, array, object, NotificationJob,
}
use notification_service_kaf.Config.{retry_delays_seconds, floats}
use notification_service_kaf.Events.{BaseEvent, UserRegistered, campaign_triggered}
use notification_service_kaf.Runtime.{Worker}
use notification_service_kaf.Runtime.Monad.{call, continue, recover}
use notification_service_kaf.Api.Publisher.{is_ready, publish}
use notification_service_kaf.Api.Events.{
  welcome_job, receive_event, handle_event, map_event_to_jobs, map_user_registered, publish_all,
}
use notification_service_kaf.Worker.Attempt.{IsUncut}
use notification_service_kaf.Worker.Stream.{Load}
use notification_service_kaf.Pipeline.Stream.{AreFinished, events-AreFinished}
use notification_service_kaf.Tests.Samples.{sample_libs}
use notification_service_kaf.Tests.ApiTests.{api, initial, sample_event}

abbrev newcomer : UserRegistered
newcomer = record { user_id = 1; registration_channel = "web"; locale = "en"; user_agent = "curl" }

abbrev campaign_event : BaseEvent
campaign_event = record sample_event { event_type = campaign_triggered }

-- The jobs of two registrations.
abbrev first_job : NotificationJob
first_job = welcome_job 0 sample_event newcomer 1000000000

abbrev second_job : NotificationJob
second_job = welcome_job 1 sample_event newcomer 1000000001

abbrev loads_by_length : List ℕ → Option Json
loads_by_length [] = some (bool true)
loads_by_length (b ∷ bs) = some (bool false)

abbrev validate_two : Json → Option NotificationJob
validate_two (bool true) = some first_job
validate_two (bool false) = some second_job
validate_two null = none
validate_two (number s z) = none
validate_two (text s) = none
validate_two (array xs) = none
validate_two (object ms) = none

-- An API and a worker between which these two jobs can be told apart.
abbrev both : Worker
both = record api {
  libs = record sample_libs {
    model_dump = λ j. bool (j.job_id == 0);
    loads = loads_by_length;
    validate = validate_two;
    float = λ s. some 1;
  };
}

both-IsUncut : IsUncut both
both-IsUncut = record {
  smtp_caught = λ n. tt;
  auth_caught = λ n. refl;
  formats_calmly = λ s v e h. absurd (cc);
}

abbrev two_loads : List Load
two_loads =
    (record { offset = 4; raw_value = some [] }, first_job)
    ∷ (record { offset = 5; raw_value = some (1 ∷ []) }, second_job)
    ∷ []

events-AreFinished_example :
    AreFinished both both
      (sample_event ∷ campaign_event ∷ sample_event ∷ [])
      two_loads
      initial
      initial
unfolding is_ready publish receive_event handle_event map_event_to_jobs map_user_registered
    publish_all call continue recover retry_delays_seconds floats strip split
events-AreFinished_example =
    events-AreFinished both both (sample_event ∷ campaign_event ∷ sample_event ∷ []) initial initial
      two_loads refl (λ n. refl) (λ m n e. e)
      (record { db_done = λ n. refl; kafka_done = λ n. refl; timer_done = λ n. refl }) both-IsUncut
      (1 ∷ 1 ∷ 1 ∷ []) refl (omega arith) refl refl refl
      (
        record { raw = _; carried = refl; loaded = refl; restored = refl },
        (record { raw = _; carried = refl; loaded = refl; restored = refl }, tt),
      )
      (refl, (refl, tt))
