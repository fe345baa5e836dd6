-- ===== src/Init/Topics.antt =====
-- What create_topics leaves behind.
use notification_service_kaf.Prelude.{
  ℕ, String, ◌≡◌, refl, ap, ◌∙◌, sym, subst, List, [], ◌∷◌, ◌++◌, true, ◌||◌, arith, eq_iff,
}
use notification_service_kaf.Runtime.{World, Worker, done, kafka}
use notification_service_kaf.Runtime.Monad.{Nothing, Result, ok, continue, tick, call, finally_do}
use notification_service_kaf.Runtime.Retrying.{retrying-first_success, none_yet}
use notification_service_kaf.Worker.Reliable.{call-done, ask-done}
use notification_service_kaf.Init.{
  has_topic, if_missing, topics_to_create, add_topics, create_missing, create_topics,
  wait_for_kafka, check_kafka,
}

has_topic-append :
    (t : String) (us vs : List String) → has_topic t (us ++ vs) ≡ (has_topic t us || has_topic t vs)
unfolding has_topic
has_topic-append t [] vs = refl
has_topic-append t (u ∷ us) vs = ground (arith, has_topic-append t us vs)

-- Both topics exist.
abbrev pub HasTopics : Worker → World → Type 0
HasTopics k w =
    (has_topic k.settings.kafka_outbox_topic w.topics ≡ true)
    × (has_topic k.settings.kafka_dlq_topic w.topics ≡ true)

has_topic-if_missing :
    (t : String) (existing : List String)
    → (has_topic t (if_missing t existing) || has_topic t existing) ≡ true
unfolding has_topic
has_topic-if_missing t existing = ground (arith, eq_iff t t)

created_or_there :
    (a b : String) (existing : List String)
    → let after = (if_missing a existing ++ if_missing b existing) ++ existing in
      (has_topic a after ≡ true) × (has_topic b after ≡ true)
created_or_there a b existing = (
  rw
      (
        has_topic-append a (if_missing a existing ++ if_missing b existing) existing,
        has_topic-append a (if_missing a existing) (if_missing b existing),
      )
      (ground (arith, has_topic-if_missing a existing)),
  rw
      (
        has_topic-append b (if_missing a existing ++ if_missing b existing) existing,
        has_topic-append b (if_missing a existing) (if_missing b existing),
      )
      (ground (arith, has_topic-if_missing b existing)),
)

none_missing : (k : Worker) (w : World) → HasTopics k w → topics_to_create k w.topics ≡ []
none_missing k w (a, b) = rw (a, b)

-- It returned, and has added these topics.
abbrev Adds : List String → World → Result Nothing × World → Type 0
Adds names w p = (p.0 ≡ ok tt) × (p.1.topics ≡ names ++ w.topics)

module _ (k : Worker) (kafka_done : (n : ℕ) → k.env.outcome kafka n ≡ done) where
  check_kafka-done : (w : World) → check_kafka k w ≡ (ok tt, tick k (tick k w))
  unfolding continue
  check_kafka-done w = rw (
    call-done k kafka (λ v. v) w (kafka_done w.calls),
    call-done k kafka (λ v. v) (tick k w) (kafka_done (tick k w).calls),
  )

  wait_for_kafka-done : (w : World) → wait_for_kafka k w ≡ (ok tt, tick k (tick k w))
  unfolding wait_for_kafka
  wait_for_kafka-done w =
      retrying-first_success _ _ _ _ 0 19 w w _ tt (omega arith) (none_yet w) (check_kafka-done w)

  create_missing-Adds : (names : List String) (w : World) → Adds names w (create_missing k names w)
  create_missing-Adds [] w = (refl, refl)
  create_missing-Adds (t ∷ ts) w =
      rw (call-done k kafka (add_topics (t ∷ ts)) w (kafka_done w.calls)) (refl, refl)

  closed_after :
      (names : List String) (w : World) (p : Result Nothing × World)
      → Adds names w p
      → Adds names w (finally_do (call k kafka (λ v. v)) p)
  closed_after names w (r, v) (a, e) = rw (call-done k kafka (λ u. u) v (kafka_done v.calls)) (a, e)

  create_topics-Adds : (w : World) → Adds (topics_to_create k w.topics) w (create_topics k w)
  unfolding create_topics continue
  create_topics-Adds w =
      let v = tick k (tick k (tick k w)) in
      rw
        (
          wait_for_kafka-done w,
          call-done k kafka (λ u. u) (tick k (tick k w)) (kafka_done (tick k (tick k w)).calls),
          ask-done k kafka (λ u. (u.topics, u)) v (kafka_done v.calls),
        )
        (closed_after (topics_to_create k w.topics) w _
          (create_missing-Adds (topics_to_create k w.topics) (tick k v)))

  -- Where Kafka answers, create_topics returns with the outbox topic and the DLQ topic in
  -- existence, and a second run returns and changes no topic.
  pub create_topics-HasTopics :
      (w : World)
      → let p = create_topics k w in
        let q = create_topics k p.1 in
        (p.0 ≡ ok tt) × HasTopics k p.1 × (q.0 ≡ ok tt) × (q.1.topics ≡ p.1.topics)
  create_topics-HasTopics w =
      let p = create_topics k w in
      let (returned, added) = create_topics-Adds w in
      let (again, same) = create_topics-Adds p.1 in
      let both =
        subst
          (λ ts.
            (has_topic k.settings.kafka_outbox_topic ts ≡ true)
            × (has_topic k.settings.kafka_dlq_topic ts ≡ true))
          (sym added)
          (created_or_there k.settings.kafka_outbox_topic k.settings.kafka_dlq_topic w.topics) in
      (
        returned,
        both,
        again,
        same ∙ ap (λ (ts : List String). ts ++ p.1.topics) (none_missing k p.1 both),
      )
