-- ===== src/Pipeline.antt =====
-- The API and the worker together: an event that the API accepts, up to the end of its job.
pub mod Jobs
pub mod Stream
use notification_service_kaf.Prelude.{
  ℕ, ◌≡◌, ◌<◌, refl, ap, ◌∙◌, List, [], ◌∷◌, none, some, true, inl, ◌⊎◌, String, map, ◌++◌,
}
use notification_service_kaf.Schemas.{NotificationJob}
use notification_service_kaf.Deliveries.{find_row}
use notification_service_kaf.Config.{retry_delays_seconds}
use notification_service_kaf.Events.{BaseEvent, EventType, UserRegistered, user_registered}
use notification_service_kaf.Runtime.{World, Worker, kafka, done}
use notification_service_kaf.Runtime.Monad.{ok}
use notification_service_kaf.Api.Publisher.{is_ready}
use notification_service_kaf.Api.Events.{receive_event, welcome_job}
use notification_service_kaf.Api.Answers.{expected_jobs, receive_event-expected_jobs}
use notification_service_kaf.Worker.Consumer.{Record, handle_and_commit}
use notification_service_kaf.Worker.Reliable.{IsReliable}
use notification_service_kaf.Worker.Attempt.{IsUncut}
use notification_service_kaf.Worker.Outcome.{IsSettled}
use notification_service_kaf.Worker.Delivery.{handle_and_commit-IsSettled}

-- The job of an accepted registration.
abbrev registered_job : Worker → BaseEvent → UserRegistered → World → NotificationJob
registered_job api event p w = welcome_job (api.env.uuid4 w.calls) event p w.clock

-- The record that carries a job from the API to the worker: json.loads of its value is what was
-- enqueued, and model_validate restores what model_dump wrote.
pub record Carries (api k : Worker) (job : NotificationJob) (msg : Record) : Type 0 where
  pub raw : List ℕ
  pub carried : msg.raw_value ≡ some raw
  pub loaded : k.libs.loads raw ≡ some (api.libs.model_dump job)
  pub restored : k.libs.validate (api.libs.model_dump job) ≡ some job

module _ (api k : Worker) (event : BaseEvent) (p : UserRegistered) (w : World)
    (registered : event.event_type ≡ user_registered)
    (valid : api.libs.parse_user_registered event.payload ≡ inl p) where
  enqueued :
      is_ready w ≡ true
      → api.env.outcome kafka w.calls ≡ done
      → (receive_event api event w).1.outbox
        ≡ api.libs.model_dump (registered_job api event p w) ∷ w.outbox
  enqueued r d =
      receive_event-expected_jobs api event w r d
      ∙ ap (λ (js : List NotificationJob). map api.libs.model_dump js ++ w.outbox)
          (jobs_of event.event_type (api.libs.parse_user_registered event.payload) registered valid)
    where
      jobs_of :
          (t : EventType) (x : UserRegistered ⊎ String)
          → t ≡ user_registered
          → x ≡ inl p
          → expected_jobs event (api.env.uuid4 w.calls) w.clock t x
            ≡ registered_job api event p w ∷ []
      jobs_of t x e f = rw (e, f) refl

  -- A registration with a valid payload that the API receives while its publisher is ready and
  -- Kafka takes the message puts one job on the topic; and a worker that reads this job from a
  -- record, with an open consumer, services that work, attempts that nothing cancels, retry delays
  -- that parse, at least one attempt and no row of that job, settles it, SENT or FAILED with a dead
  -- letter, and commits the record.
  registered-IsSettled :
      (reliable : IsReliable k) (uncut : IsUncut k) (delays : List ℕ) (msg : Record) (v : World)
      → is_ready w ≡ true
      → api.env.outcome kafka w.calls ≡ done
      → retry_delays_seconds k.libs k.settings ≡ ok delays
      → Carries api k (registered_job api event p w) msg
      → v.consumer_open ≡ true
      → find_row (api.env.uuid4 w.calls) v.deliveries ≡ none
      → 0 < k.settings.max_attempts
      → ((receive_event api event w).1.outbox
          ≡ api.libs.model_dump (registered_job api event p w) ∷ w.outbox)
        × IsSettled k
            (registered_job api event p w)
            k.settings.max_attempts
            v
            (handle_and_commit k msg v)
        × ((handle_and_commit k msg v).1.committed ≡ some v.position)
  registered-IsSettled reliable uncut delays msg v r d parsed c o fresh positive =
      let job = registered_job api event p w in
      let (settled, committed) =
        handle_and_commit-IsSettled k reliable uncut job delays parsed msg v
          (record {
            raw = c.raw;
            carried = c.carried;
            payload = _;
            loaded = c.loaded;
            valid = c.restored;
          })
          o (rw fresh positive) tt in
      (enqueued r d, settled, committed)
