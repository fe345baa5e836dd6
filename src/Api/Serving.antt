-- ===== src/Api/Serving.antt =====
-- The life of the API process: what its readiness promises, and what it leaves behind.
use notification_service_kaf.Prelude.{
  ℕ, zero, suc, ◌≡◌, refl, ap, ◌∙◌, ◌++◌, map, Bool, true, false, not, ◌||◌, arith, Bool-cases, inl,
  inr, if◌then◌else◌,
}
use notification_service_kaf.Events.{BaseEvent}
use notification_service_kaf.Runtime.{World, Worker, done, kafka}
use notification_service_kaf.Runtime.Monad.{
  Action, Nothing, Result, ok, raised, pure, continue, sleep, ensure,
}
use notification_service_kaf.Runtime.Views.{
  overridden-world, continue-view, call-view, recover-view,
}
use notification_service_kaf.Api.Publisher.{
  is_ready, start, start_attempts, stop_publisher, stop_quietly, try_start, started_or,
  after_failed_start,
}
use notification_service_kaf.Api.Events.{receive_event}
use notification_service_kaf.Api.Answers.{expected_jobs, receive_event-expected_jobs}
use notification_service_kaf.Api.Lifespan.{ready, ready_status, kafka_status, db_answers, lifespan}

module _ (k : Worker) where
  code_of : Result ℕ → ℕ
  code_of (ok n) = n
  code_of (raised e) = 0

  kafka_status-eq_200 : (b : Bool) → kafka_status b ≡ 200 → b ≡ true
  kafka_status-eq_200 true h = refl
  kafka_status-eq_200 false h = absurd (omega arith)

  answered_200 :
      (p : Result Bool × World)
      → (continue ready_status p).0 ≡ ok 200
      → is_ready (continue ready_status p).1 ≡ true
  unfolding continue code_of
  answered_200 (ok true, w) h = kafka_status-eq_200 (is_ready w) (ap code_of h)
  answered_200 (ok false, w) h = let e : ◌≡◌ {A = ℕ} 503 200 = ap code_of h in absurd (omega arith)
  answered_200 (raised e, w) h = let f : ◌≡◌ {A = ℕ} 0 200 = ap code_of h in absurd (omega arith)

  -- If GET /ready answers with 200 and Kafka takes the next message, the jobs of an event that the
  -- API receives next are enqueued: the welcome job for a registration with a valid payload, none
  -- for an invalid payload or another type of event.
  ready-receive_event :
      (event : BaseEvent) (w : World)
      → (ready k w).0 ≡ ok 200
      → k.env.outcome kafka (ready k w).1.calls ≡ done
      → let v = (ready k w).1 in
        (receive_event k event v).1.outbox
        ≡ map k.libs.model_dump (
            expected_jobs event
              (k.env.uuid4 v.calls)
              v.clock
              event.event_type
              (k.libs.parse_user_registered event.payload))
          ++ v.outbox
  unfolding ready
  ready-receive_event event w h d =
      receive_event-expected_jobs k event _ (answered_200 (db_answers k w) h) d

  started_of : World → Bool
  started_of w = w.publisher_started

  -- Unless it returned, the publisher is not started.
  abbrev Unstarted : Result Nothing × World → Type 0
  Unstarted (ok x, w) = Unit {0}
  Unstarted (raised e, w) = w.publisher_started ≡ false

  chained :
      {A : Type 0} (f : A → Action Nothing) (p : Result A × World)
      → p.1.publisher_started ≡ false
      → ((a : A) (w : World) → w.publisher_started ≡ false → Unstarted (f a w))
      → Unstarted (continue f p)
  unfolding continue
  chained f (ok a, w) e h = h a w e
  chained f (raised x, w) e h = e

  try_start-started : (w : World) → started_of (try_start k w).1 ≡ started_of w
  unfolding started_of
  try_start-started w =
      recover-view started_of _ w _
        (continue-view started_of _ w _ (call-view started_of k (λ v. refl) _ _ w (λ v. refl))
          (λ x v. refl))
        (λ e v. refl)

  stop_quietly-started : (w : World) → started_of (stop_quietly k w).1 ≡ started_of w
  unfolding started_of
  stop_quietly-started w =
      recover-view started_of _ w _ (call-view started_of k (λ v. refl) _ _ w (λ v. refl))
        (λ e v. refl)

  sleep-started : (d : ℕ) (w : World) → started_of (sleep k d w).1 ≡ started_of w
  unfolding started_of sleep
  sleep-started d w = call-view started_of k (λ v. refl) _ _ w (λ v. refl)

  start_attempts-Unstarted :
      (n : ℕ) (w : World) → w.publisher_started ≡ false → Unstarted (start_attempts k n w)
  unfolding start_attempts started_of
  start_attempts-Unstarted zero w h =
      chained _ (try_start k w) (try_start-started w ∙ h) λ b v e. decided b v e
    where
      decided :
          (b : Bool) (v : World)
          → v.publisher_started ≡ false
          → Unstarted (started_or (after_failed_start k zero (pure tt)) b v)
      decided true v e = tt
      decided false v e = chained _ (stop_quietly k v) (stop_quietly-started v ∙ e) (λ x u f. tt)
  start_attempts-Unstarted (suc n) w h =
      chained _ (try_start k w) (try_start-started w ∙ h)
        λ b v e. decided (start_attempts-Unstarted n) b v e
    where
      decided :
          ((u : World) → u.publisher_started ≡ false → Unstarted (start_attempts k n u))
          → (b : Bool) (v : World) → v.publisher_started ≡ false
          → Unstarted (started_or (after_failed_start k (suc n) (start_attempts k n)) b v)
      decided again true v e = tt
      decided again false v e =
          chained _ (stop_quietly k v) (stop_quietly-started v ∙ e)
            λ x u f. chained _ (sleep k _ u) (sleep-started _ u ∙ f) λ y z g. again z g

  stopped : (v : World) → (stop_publisher k v).1.publisher_started ≡ false
  unfolding stop_publisher
  stopped v = elim (Bool-cases v.publisher_started) [ inl e ↦ rw e refl | inr e ↦ rw e refl ]

  start-Unstarted : (w : World) → w.publisher_started ≡ false → Unstarted (start k w)
  unfolding start
  start-Unstarted w h = go (w.publisher_started || not w.publisher_enabled)
    where
      go : (b : Bool) → Unstarted (if b then (ok tt, w) else start_attempts k 9 w)
      go true = tt
      go false = start_attempts-Unstarted 9 w h

  served :
      (serving : Action Nothing) (p : Result Nothing × World)
      → Unstarted p
      → (continue (λ x. ensure serving (stop_publisher k)) p).1.publisher_started ≡ false
  unfolding continue started_of
  served serving (ok x, v) h =
      let (r, u) = serving v in ap started_of (overridden-world r (stop_publisher k u)) ∙ stopped u
  served serving (raised e, v) h = h

  -- However an API process starts, serves and shuts down, the publisher is not started at its end
  -- if it was not at its start.
  lifespan-publisher_started :
      (serving : Action Nothing) (w : World)
      → w.publisher_started ≡ false
      → (lifespan k serving w).1.publisher_started ≡ false
  unfolding lifespan
  lifespan-publisher_started serving w h = served serving (start k w) (start-Unstarted w h)
