-- ===== src/Api/Answers.antt =====
-- What the events endpoint answers, and what it enqueues.
use notification_service_kaf.Prelude.{
  ℕ, ◌≡◌, refl, ap, sym, length, Bool-cases, map, ◌++◌, ◌∙◌, ◌⊎◌, String, List, [], ◌∷◌, Bool, true,
  false, not, ◌&&◌, ◌||◌, arith, inl, inr,
}
use notification_service_kaf.Schemas.{Json, NotificationJob}
use notification_service_kaf.Events.{
  EventType, user_registered, new_film_released, campaign_triggered, UserRegistered, BaseEvent,
}
use notification_service_kaf.Runtime.{
  IsCaught, IsCaught, World, Worker, Outcome, done, refused, lost, kafka,
}
use notification_service_kaf.Runtime.Monad.{
  Nothing, Result, ok, raised, continue, recover, tick, call, finish, pure, ◌>>◌,
}
use notification_service_kaf.Api.Publisher.{is_ready, publish, enqueue}
use notification_service_kaf.Api.Events.{
  welcome_job, map_user_registered, map_event_to_jobs, map_by_type, publish_all, handle_event,
  receive_event, status_of,
}

-- The status that an event deserves: 202 for a registration with a valid payload, 400 for an invalid
-- one, 501 for the event types that are not implemented.
abbrev payload_status : UserRegistered ⊎ String → ℕ
payload_status (inl p) = 202
payload_status (inr error) = 400

abbrev type_status : EventType → ℕ → ℕ
type_status user_registered status = status
type_status new_film_released status = 501
type_status campaign_triggered status = 501

abbrev pub expected_status : Worker → BaseEvent → ℕ
expected_status k event =
    type_status event.event_type (payload_status (k.libs.parse_user_registered event.payload))

swallowed :
    (o : Outcome) (w v : World)
    → IsCaught o
    → (recover (λ e w'. (ok tt, w')) (finish o w v)).0 ≡ ok tt
unfolding recover
swallowed done w v h = refl
swallowed (refused e) w v h = rw h
swallowed (lost e) w v h = rw h

continued : (p : Result Nothing × World) → p.0 ≡ ok tt → (continue (λ x w. (ok tt, w)) p).0 ≡ ok tt
unfolding continue
continued (ok x, w) e = refl
continued (raised x, w) e = e

counted :
    (n : ℕ) (p : Result Nothing × World)
    → p.0 ≡ ok tt
    → status_of (continue (λ x w. (ok n, w)) p).0 ≡ 202
unfolding continue
counted n (ok x, w) e = refl
counted n (raised x, w) e = absurd (cc)

answer-≡ : (p : ℕ × World) (n : ℕ) (w : World) → p.0 ≡ n → p.1 ≡ w → p ≡ (n, w)
answer-≡ p n w e f = rw (sym e, sym f) refl

last_world :
    (p : Result Nothing × World)
    → (continue {B = ℕ} (λ (x : Unit). pure 1) (continue {B = Unit} (λ x w. (ok tt, w)) p)).1 ≡ p.1
unfolding continue
last_world (ok x, w) = refl
last_world (raised x, w) = refl

disabled : (a b : Bool) → (a && b) ≡ false → (not a || not b) ≡ true
disabled a b h = ground arith

enabled : (a b : Bool) → (a && b) ≡ true → (not a || not b) ≡ false
enabled a b h = ground arith

-- What an event does to the world: its job is published, if it has one.
abbrev pub published : Worker → BaseEvent → ℕ → EventType → UserRegistered ⊎ String → World → World
published k event now user_registered (inl p) w =
    (publish k (k.libs.model_dump (welcome_job (k.env.uuid4 w.calls) event p now)) w).1
published k event now user_registered (inr x) w = w
published k event now new_film_released r w = w
published k event now campaign_triggered r w = w

-- The jobs that an event becomes.
abbrev pub expected_jobs :
    BaseEvent → ℕ → ℕ → EventType → UserRegistered ⊎ String → List NotificationJob
expected_jobs event i now user_registered (inl p) = welcome_job i event p now ∷ []
expected_jobs event i now user_registered (inr x) = []
expected_jobs event i now new_film_released r = []
expected_jobs event i now campaign_triggered r = []

module _ (k : Worker) where
  publish-ok :
      (payload : Json) (w : World)
      → IsCaught (k.env.outcome kafka w.calls)
      → (publish k payload w).0 ≡ ok tt
  unfolding publish call
  publish-ok payload w h = elim (Bool-cases (not w.publisher_enabled || not w.publisher_started)) [
    | inl e ↦ rw e
    | inr e ↦ rw e (swallowed (k.env.outcome kafka w.calls) (tick k w) _ h)
  ]

  publish_all-one :
      (payload : NotificationJob) (w : World)
      → IsCaught (k.env.outcome kafka w.calls)
      → (publish_all k (payload ∷ []) w).0 ≡ ok tt
  unfolding publish_all continue
  publish_all-one job w h = continued (publish k (k.libs.model_dump job) w) (publish-ok _ w h)

  module _ (caught : (n : ℕ) → IsCaught (k.env.outcome kafka n)) where
    answered :
        (event : BaseEvent) (now : ℕ) (t : EventType) (r : UserRegistered ⊎ String) (w : World)
        → k.libs.parse_user_registered event.payload ≡ r
        → status_of
            (continue
              (λ jobs. publish_all k jobs >> pure (length jobs))
              (map_by_type k event now t w)).0
          ≡ type_status t (payload_status r)
    unfolding map_user_registered continue
    answered event now user_registered (inl p) w e =
        let job = welcome_job (k.env.uuid4 w.calls) event p now in
        rw e (counted 1 _ (publish_all-one job w (caught w.calls)))
    answered event now user_registered (inr x) w e = rw e refl
    answered event now new_film_released r w e = refl
    answered event now campaign_triggered r w e = refl

    -- Where no publish is cancelled, the events endpoint answers 202 to a registration with a valid
    -- payload, 400 to one with an invalid payload and 501 to the other types of events, whether
    -- Kafka takes the job or not.
    pub receive_event-expected_status :
        (event : BaseEvent) (w : World) → (receive_event k event w).0 ≡ expected_status k event
    unfolding receive_event handle_event map_event_to_jobs continue
    receive_event-expected_status event w =
        answered event w.clock event.event_type (k.libs.parse_user_registered event.payload) w refl

  after_publishing :
      (job : NotificationJob) (w : World)
      → (continue {B = ℕ} (λ (x : Unit). pure 1) (publish_all k (job ∷ []) w)).1
        ≡ (publish k (k.libs.model_dump job) w).1
  unfolding publish_all continue
  after_publishing job w = last_world (publish k (k.libs.model_dump job) w)

  event-world :
      (event : BaseEvent) (now : ℕ) (t : EventType) (r : UserRegistered ⊎ String) (w : World)
      → k.libs.parse_user_registered event.payload ≡ r
      → (continue
          (λ jobs. publish_all k jobs >> pure (length jobs))
          (map_by_type k event now t w)).1
        ≡ published k event now t r w
  unfolding map_user_registered continue
  event-world event now user_registered (inl p) w e =
      rw (e, published) (after_publishing (welcome_job (k.env.uuid4 w.calls) event p now) w)
  event-world event now user_registered (inr x) w e = rw e refl
  event-world event now new_film_released r w e = refl
  event-world event now campaign_triggered r w e = refl

  pub receive_event-world :
      (event : BaseEvent) (w : World)
      → (receive_event k event w).1
        ≡ published k event w.clock event.event_type (k.libs.parse_user_registered event.payload) w
  unfolding receive_event handle_event map_event_to_jobs continue
  receive_event-world event w =
      event-world event w.clock event.event_type (k.libs.parse_user_registered event.payload) w refl

  publish-idle :
      (payload : Json) (w : World) → is_ready w ≡ false → publish k payload w ≡ (ok tt, w)
  unfolding publish is_ready
  publish-idle payload w h = rw (disabled w.publisher_enabled w.publisher_started h)

  pub publish-ready :
      (payload : Json) (w : World)
      → is_ready w ≡ true
      → k.env.outcome kafka w.calls ≡ done
      → publish k payload w ≡ (ok tt, enqueue payload (tick k w))
  unfolding publish is_ready call recover
  publish-ready payload w h d = rw (enabled w.publisher_enabled w.publisher_started h, d)

  idle :
      (event : BaseEvent) (now : ℕ) (t : EventType) (r : UserRegistered ⊎ String) (w : World)
      → is_ready w ≡ false
      → published k event now t r w ≡ w
  idle event now user_registered (inl p) w h = ap (λ q. q.1) (publish-idle _ w h)
  idle event now user_registered (inr x) w h = refl
  idle event now new_film_released r w h = refl
  idle event now campaign_triggered r w h = refl

  -- While the publisher is not ready and no publish is cancelled, the events endpoint answers an
  -- event with its usual status, 202 included, and changes nothing: no job is enqueued.
  pub receive_event-degraded :
      (event : BaseEvent) (w : World)
      → ((n : ℕ) → IsCaught (k.env.outcome kafka n))
      → is_ready w ≡ false
      → receive_event k event w ≡ (expected_status k event, w)
  receive_event-degraded event w caught h =
      answer-≡ (receive_event k event w) _ w (receive_event-expected_status caught event w)
        (receive_event-world event w ∙ idle event w.clock event.event_type _ w h)

  enqueued :
      (event : BaseEvent) (now : ℕ) (t : EventType) (r : UserRegistered ⊎ String) (w : World)
      → is_ready w ≡ true
      → k.env.outcome kafka w.calls ≡ done
      → (published k event now t r w).outbox
        ≡ map k.libs.model_dump (expected_jobs event (k.env.uuid4 w.calls) now t r) ++ w.outbox
  enqueued event now user_registered (inl p) w h d = ap (λ q. q.1.outbox) (publish-ready _ w h d)
  enqueued event now user_registered (inr x) w h d = refl
  enqueued event now new_film_released r w h d = refl
  enqueued event now campaign_triggered r w h d = refl

  -- While the publisher is ready and Kafka takes the message, exactly the jobs of the event are
  -- enqueued: the welcome job for a registration with a valid payload, none for an invalid payload
  -- or another type of event.
  pub receive_event-expected_jobs :
      (event : BaseEvent) (w : World)
      → is_ready w ≡ true
      → k.env.outcome kafka w.calls ≡ done
      → (receive_event k event w).1.outbox
        ≡ map k.libs.model_dump (
            expected_jobs event
              (k.env.uuid4 w.calls)
              w.clock
              event.event_type
              (k.libs.parse_user_registered event.payload))
          ++ w.outbox
  receive_event-expected_jobs event w h d =
      ap (λ v. v.outbox) (receive_event-world event w)
      ∙ enqueued event w.clock event.event_type _ w h d
