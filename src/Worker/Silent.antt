-- ===== src/Worker/Silent.antt =====
-- A consumer that ends on an error of Kafka.
use notification_service_kaf.Prelude.{
  ℕ, suc, ◌≡◌, refl, sym, ap, subst, ◌∙◌, List, [], ◌∷◌, ◌++◌, Option, Bool, true, false,
  if◌then◌else◌,
}
use notification_service_kaf.Deliveries.{Table}
use notification_service_kaf.Runtime.{
  Exc, kafka_error, kafka_connection_error, World, Worker, done, refused, kafka, Notification,
  DlqMessage,
}
use notification_service_kaf.Runtime.Monad.{
  Action, Nothing, Result, ok, raised, pure, ◌>>◌, continue, tick, call,
}
use notification_service_kaf.Runtime.Views.{continue-view, call-view, if-view}
use notification_service_kaf.Worker.Reliable.{call-done}
use notification_service_kaf.Worker.Messages.{handle_message-offsets}
use notification_service_kaf.Worker.Consumer.{
  Record, consume, fetch, run_loop, stop_consumer, close, after_loop, handle_and_commit,
  commit_message, handle_message,
}

-- An exception of class KafkaError, of which KafkaConnectionError is a subclass.
abbrev pub IsKafkaError : Exc → Type 0
IsKafkaError (kafka_error m) = Unit {0}
IsKafkaError (kafka_connection_error m) = Unit {0}
IsKafkaError e = ⊥

-- What handling a record leaves alone of a consumer's flags.
abbrev flags : World → Bool × Bool
flags w = (w.stopped, w.ready)

module _ (k : Worker) where
  commit_message-flags : (w : World) → flags (commit_message k w).1 ≡ flags w
  unfolding commit_message
  commit_message-flags w =
      continue-view flags _ w _ refl
        λ b v. if-view flags b v _ _ (call-view flags k (λ u. refl) _ _ v (λ u. refl)) refl

  handle_and_commit-flags : (m : Record) (w : World) → flags (handle_and_commit k m w).1 ≡ flags w
  handle_and_commit-flags m w =
      continue-view flags _ w (handle_message k m w)
        (ap (λ (z : Option ℕ × ℕ × Bool × Bool). (z.2, z.3)) (handle_message-offsets k m w))
        λ b v. if-view flags b v _ _ (commit_message-flags v) refl

  -- The loop leaves the flags alone.
  consume-flags : (msgs : List Record) (w : World) → flags (consume k msgs w).1 ≡ flags w
  unfolding consume
  consume-flags [] w = refl
  consume-flags (m ∷ ms) w =
      continue-view flags _ w _ (call-view flags k (λ u. refl) _ _ w (λ u. refl)) λ x v.
        continue-view flags _ v _ refl λ b u.
          if-view flags b u _ _ refl
            (continue-view flags _ u _ (handle_and_commit-flags m u) λ y z. consume-flags ms z)

  stays_running : (u w : World) → flags u ≡ flags w → w.stopped ≡ false → u.stopped ≡ false
  stays_running u w f s = ap (λ (z : Bool × Bool). z.0) f ∙ s

  -- One record that is handled without an exception, before records of which this holds.
  module _ (m : Record) (ms rest : List Record) (v : World)
      (later : (u : World)
        → u.stopped ≡ false
        → consume k ms u ≡ (ok tt, v)
        → consume k (ms ++ rest) u ≡ consume k rest v) where
    abbrev behind : List Record → Result Nothing × World → Result Nothing × World
    behind ns q = continue (λ x. consume k ns) q

    abbrev looped : List Record → Bool → Action Nothing
    looped ns b = if b then pure tt else handle_and_commit k m >> consume k ns

    after_handling :
        (q : Result Nothing × World)
        → q.1.stopped ≡ false
        → behind ms q ≡ (ok tt, v)
        → behind (ms ++ rest) q ≡ consume k rest v
    unfolding continue
    after_handling (ok x, u) t h = later u t h
    after_handling (raised x, u) t h = absurd (cc)

    after_test :
        (u : World) (b : Bool)
        → u.stopped ≡ false
        → u.stopped ≡ b
        → looped ms b u ≡ (ok tt, v)
        → looped (ms ++ rest) b u ≡ consume k rest v
    after_test u true t f h = absurd (cc)
    after_test u false t f h =
        after_handling (handle_and_commit k m u)
          (stays_running (handle_and_commit k m u).1 u (handle_and_commit-flags m u) t) h

    after_fetch :
        (p : Result Nothing × World)
        → p.1.stopped ≡ false
        → continue (λ x u. looped ms u.stopped u) p ≡ (ok tt, v)
        → continue (λ x u. looped (ms ++ rest) u.stopped u) p ≡ consume k rest v
    unfolding continue
    after_fetch (ok x, u) t h = after_test u u.stopped t refl h
    after_fetch (raised x, u) t h = absurd (cc)

  -- A running consumer that has handled some records without an exception goes on with the rest.
  consume-append :
      (ms rest : List Record) (w v : World)
      → w.stopped ≡ false
      → consume k ms w ≡ (ok tt, v)
      → consume k (ms ++ rest) w ≡ consume k rest v
  unfolding consume continue
  consume-append [] rest w v s e = ap (λ (p : Result Nothing × World). consume k rest p.1) e
  consume-append (m ∷ ms) rest w v s e =
      after_fetch m ms rest v (λ u. consume-append ms rest u v) (call k kafka (fetch m) w)
        (stays_running (call k kafka (fetch m) w).1 w
          (call-view flags k (λ u. refl) _ _ w (λ u. refl)) s)
        e

  -- What the worker has done with jobs and offsets.
  abbrev traces : World → Table × List Notification × List DlqMessage × Option ℕ
  traces w = (w.deliveries, w.sent, w.dlq, w.committed)

  -- The consumer was closed without an exception; the jobs, the offsets and the marker are as they were.
  abbrev pub IsClosed : World → Result Nothing × World → Type 0
  IsClosed v p =
      (p.0 ≡ ok tt) × (p.1.consumer_open ≡ false) × (traces p.1 ≡ traces v) × (p.1.ready ≡ v.ready)

  stop_consumer-IsClosed :
      (v : World) → k.env.outcome kafka v.calls ≡ done → IsClosed v (stop_consumer k v)
  unfolding stop_consumer continue
  stop_consumer-IsClosed v d = go v.consumer_open refl
    where
      go :
          (b : Bool)
          → b ≡ v.consumer_open
          → IsClosed v
              ((if b then (call k kafka (λ w. w) >> (λ w. (ok tt, close w))) else pure tt) v)
      go true e = rw (call-done k kafka (λ w. w) v d) (refl, refl, refl, refl)
      go false e = (refl, sym e, refl, refl)

  swallowed :
      (e : Exc) (v : World)
      → IsKafkaError e
      → k.env.outcome kafka v.calls ≡ done
      → IsClosed v (after_loop k (raised e) v)
  swallowed (kafka_error m) v h d = stop_consumer-IsClosed v d
  swallowed (kafka_connection_error m) v h d = stop_consumer-IsClosed v d
  swallowed e v h d = absurd h

  -- If a running consumer has handled some records of its stream without an exception, Kafka then
  -- refuses the fetch of the next one with a KafkaError or its subclass KafkaConnectionError, and
  -- answers the stop of the consumer, the consumer's task returns without an exception, whatever
  -- records were to come: the consumer is closed, the delivery table, the notifications that were
  -- sent, the dead letters and the committed offset are as they were at the refusal, and the ready
  -- marker is as it was at the start.
  pub run_loop-kafka_error :
      (before : List Record) (msg : Record) (msgs : List Record) (w v : World) (e : Exc)
      → w.stopped ≡ false
      → consume k before w ≡ (ok tt, v)
      → IsKafkaError e
      → k.env.outcome kafka v.calls ≡ refused e
      → k.env.outcome kafka (suc v.calls) ≡ done
      → IsClosed v (run_loop k (before ++ msg ∷ msgs) w)
        × ((run_loop k (before ++ msg ∷ msgs) w).1.ready ≡ w.ready)
  unfolding run_loop consume call continue
  run_loop-kafka_error before msg msgs w v e s b h r d =
      let closed : IsClosed v (run_loop k (msg ∷ msgs) v) = rw r (swallowed e (tick k v) h d) in
      let marker =
        ap (λ (p : Result Nothing × World). p.1.ready) (sym b)
        ∙ ap (λ (z : Bool × Bool). z.1) (consume-flags before w) in
      subst
        (λ (q : Result Nothing × World).
          IsClosed v (after_loop k q.0 q.1) × ((after_loop k q.0 q.1).1.ready ≡ w.ready))
        (sym (consume-append before (msg ∷ msgs) w v s b)) (closed, closed.3 ∙ marker)
