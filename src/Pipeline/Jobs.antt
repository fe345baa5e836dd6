-- ===== src/Pipeline/Jobs.antt =====
-- The jobs of a list of events that the API receives: what it puts on the topic, and their ids.
use notification_service_kaf.Prelude.{
  ℕ, suc, ◌≡◌, ◌≢◌, ◌≤◌, refl, ap, sym, subst, ◌∙◌, List, [], ◌∷◌, ◌++◌, map, none, true, inl, inr,
  ◌⊎◌, String, All, arith,
}
use notification_service_kaf.Schemas.{NotificationJob, Json}
use notification_service_kaf.Events.{
  BaseEvent, EventType, UserRegistered, user_registered, new_film_released, campaign_triggered,
}
use notification_service_kaf.Runtime.{World, Worker, kafka, done}
use notification_service_kaf.Runtime.Monad.{tick}
use notification_service_kaf.Api.Publisher.{is_ready, enqueue}
use notification_service_kaf.Api.Events.{receive_event, welcome_job}
use notification_service_kaf.Api.Answers.{
  expected_jobs, receive_event-expected_jobs, receive_event-world, publish-ready, published,
}

-- The API receives the events in turn.
abbrev pub receive_all : Worker → List BaseEvent → World → World
receive_all api [] w = w
receive_all api (e ∷ es) w = receive_all api es (receive_event api e w).1

-- The jobs of the events, in the order in which they are enqueued.
abbrev pub jobs_of : Worker → List BaseEvent → World → List NotificationJob
jobs_of api [] w = []
jobs_of api (e ∷ es) w =
    expected_jobs e (api.env.uuid4 w.calls) w.clock e.event_type
      (api.libs.parse_user_registered e.payload)
    ++ jobs_of api es (receive_event api e w).1

-- The messages are put on the topic in turn; the newest stands first.
abbrev pub push_all : List Json → List Json → List Json
push_all [] o = o
push_all (m ∷ ms) o = push_all ms (m ∷ o)

-- The job ids come from different calls of uuid4 from the c-th on, and the job does not expire.
abbrev pub IsNew : Worker → ℕ → NotificationJob → Type 0
IsNew api c job = (n : ℕ) × (c ≤ n) × (job.job_id ≡ api.env.uuid4 n) × (job.expires_at ≡ none)

abbrev pub AreDistinct : List NotificationJob → Type 0
AreDistinct [] = Unit {0}
AreDistinct (j ∷ js) = All (λ (i : NotificationJob). i.job_id ≢ j.job_id) js × AreDistinct js

module _ (api : Worker) (kafka_done : (n : ℕ) → api.env.outcome kafka n ≡ done) where
  abbrev after : BaseEvent → EventType → UserRegistered ⊎ String → World → World
  after e user_registered (inl p) w =
      enqueue (api.libs.model_dump (welcome_job (api.env.uuid4 w.calls) e p w.clock)) (tick api w)
  after e user_registered (inr x) w = w
  after e new_film_released r w = w
  after e campaign_triggered r w = w

  published-after :
      (e : BaseEvent) (t : EventType) (r : UserRegistered ⊎ String) (w : World)
      → is_ready w ≡ true
      → published api e w.clock t r w ≡ after e t r w
  published-after e user_registered (inl p) w h =
      ap (λ q. q.1) (publish-ready api _ w h (kafka_done w.calls))
  published-after e user_registered (inr x) w h = refl
  published-after e new_film_released r w h = refl
  published-after e campaign_triggered r w h = refl

  receive_event-after :
      (e : BaseEvent) (w : World)
      → is_ready w ≡ true
      → (receive_event api e w).1
        ≡ after e e.event_type (api.libs.parse_user_registered e.payload) w
  receive_event-after e w h =
      receive_event-world api e w
      ∙ published-after e e.event_type (api.libs.parse_user_registered e.payload) w h

  after-is_ready :
      (e : BaseEvent) (t : EventType) (r : UserRegistered ⊎ String) (w : World)
      → is_ready (after e t r w) ≡ is_ready w
  unfolding is_ready
  after-is_ready e user_registered (inl p) w = refl
  after-is_ready e user_registered (inr x) w = refl
  after-is_ready e new_film_released r w = refl
  after-is_ready e campaign_triggered r w = refl

  receive_event-ready :
      (e : BaseEvent) (w : World) → is_ready w ≡ true → is_ready (receive_event api e w).1 ≡ true
  receive_event-ready e w h = ap is_ready (receive_event-after e w h) ∙ after-is_ready e _ _ w ∙ h

  push_expected :
      (e : BaseEvent) (i now : ℕ) (t : EventType) (r : UserRegistered ⊎ String)
      (ks : List NotificationJob) (o : List Json)
      → push_all (map api.libs.model_dump (expected_jobs e i now t r ++ ks)) o
        ≡ push_all
            (map api.libs.model_dump ks)
            (map api.libs.model_dump (expected_jobs e i now t r) ++ o)
  push_expected e i now user_registered (inl p) ks o = refl
  push_expected e i now user_registered (inr x) ks o = refl
  push_expected e i now new_film_released r ks o = refl
  push_expected e i now campaign_triggered r ks o = refl

  pub receive_all-outbox :
      (es : List BaseEvent) (w : World)
      → is_ready w ≡ true
      → (receive_all api es w).outbox
        ≡ push_all (map api.libs.model_dump (jobs_of api es w)) w.outbox
  receive_all-outbox [] w h = refl
  receive_all-outbox (e ∷ es) w h =
      receive_all-outbox es (receive_event api e w).1 (receive_event-ready e w h)
      ∙ ap (push_all (map api.libs.model_dump (jobs_of api es (receive_event api e w).1)))
          (receive_event-expected_jobs api e w h (kafka_done w.calls))
      ∙ sym (push_expected e _ _ e.event_type _ _ w.outbox)

  later_IsNew :
      (b c : ℕ) (js : List NotificationJob) → b ≤ c → All (IsNew api c) js → All (IsNew api b) js
  later_IsNew b c [] h a = tt
  later_IsNew b c (j ∷ js) h ((n, l, i, x), bs) = ((n, omega arith, i, x), later_IsNew b c js h bs)

  expected-IsNew :
      (e : BaseEvent) (t : EventType) (r : UserRegistered ⊎ String) (w : World)
      (ks : List NotificationJob)
      → All (IsNew api (after e t r w).calls) ks
      → All (IsNew api w.calls) (expected_jobs e (api.env.uuid4 w.calls) w.clock t r ++ ks)
  expected-IsNew e user_registered (inl p) w ks a =
      ((w.calls, omega arith, refl, refl), later_IsNew w.calls (suc w.calls) ks (omega arith) a)
  expected-IsNew e user_registered (inr x) w ks a = a
  expected-IsNew e new_film_released r w ks a = a
  expected-IsNew e campaign_triggered r w ks a = a

  pub jobs_of-IsNew :
      (es : List BaseEvent) (w : World)
      → is_ready w ≡ true
      → All (IsNew api w.calls) (jobs_of api es w)
  jobs_of-IsNew [] w h = tt
  jobs_of-IsNew (e ∷ es) w h =
      let u = (receive_event api e w).1 in
      let t = e.event_type in
      let r = api.libs.parse_user_registered e.payload in
      expected-IsNew e t r w (jobs_of api es u) (
        subst (λ (v : World). All (IsNew api v.calls) (jobs_of api es u))
          (receive_event-after e w h) (jobs_of-IsNew es u (receive_event-ready e w h)))

  module _ (unique : (m n : ℕ) → api.env.uuid4 m ≡ api.env.uuid4 n → m ≡ n) where
    others_differ :
        (c : ℕ) (js : List NotificationJob)
        → All (IsNew api (suc c)) js
        → All (λ (i : NotificationJob). i.job_id ≢ api.env.uuid4 c) js
    others_differ c [] a = tt
    others_differ c (j ∷ js) ((n, l, i, x), bs) = (
      (λ f. let same : n ≡ c = unique n c (sym i ∙ f) in absurd (omega (arith, same, l))),
      others_differ c js bs,
    )

    expected-AreDistinct :
        (e : BaseEvent) (t : EventType) (r : UserRegistered ⊎ String) (w : World)
        (ks : List NotificationJob)
        → All (IsNew api (after e t r w).calls) ks
        → AreDistinct ks
        → AreDistinct (expected_jobs e (api.env.uuid4 w.calls) w.clock t r ++ ks)
    expected-AreDistinct e user_registered (inl p) w ks a d = (others_differ w.calls ks a, d)
    expected-AreDistinct e user_registered (inr x) w ks a d = d
    expected-AreDistinct e new_film_released r w ks a d = d
    expected-AreDistinct e campaign_triggered r w ks a d = d

    pub jobs_of-AreDistinct :
        (es : List BaseEvent) (w : World) → is_ready w ≡ true → AreDistinct (jobs_of api es w)
    jobs_of-AreDistinct [] w h = tt
    jobs_of-AreDistinct (e ∷ es) w h =
        let u = (receive_event api e w).1 in
        let ready = receive_event-ready e w h in
        expected-AreDistinct e e.event_type (api.libs.parse_user_registered e.payload) w
          (jobs_of api es u)
          (subst (λ (v : World). All (IsNew api v.calls) (jobs_of api es u))
            (receive_event-after e w h) (jobs_of-IsNew es u ready))
          (jobs_of-AreDistinct es u ready)
