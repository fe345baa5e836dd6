-- ===== src/Worker/Rejected.antt =====
-- Records that hold no job: messages that are no JSON, JSON that is no NotificationJob, or no value.
use notification_service_kaf.Prelude.{
  ℕ, suc, false, ◌≡◌, refl, ap, String, List, ◌∷◌, Option, none, some, true,
}
use mathlib.Core.Option.{some-injective}
use notification_service_kaf.Schemas.{Json, NotificationJob}
use notification_service_kaf.Runtime.{World, Worker, kafka, done}
use notification_service_kaf.Runtime.Monad.{Result, ok, raised, Nothing, continue, tick, call}
use notification_service_kaf.Worker.Dlq.{enqueue_dlq, no_value, publish_raw}
use notification_service_kaf.Worker.Consumer.{
  Record, decoded, validated, handle_message, handle_and_commit, run_loop, consume, stop_consumer,
}
use notification_service_kaf.Worker.Reliable.{IsReliable, raw_letter, publish_raw-done}
use notification_service_kaf.Worker.Lost.{commit_message-done}

-- The reason to reject a message, if there is one.
abbrev of_payload : Option NotificationJob → Option String
of_payload none = some "Invalid NotificationJob payload"
of_payload (some job) = none

abbrev of_message : Worker → Option Json → Option String
of_message k none = some "Invalid JSON in Kafka message"
of_message k (some payload) = of_payload (k.libs.validate payload)

abbrev pub rejection : Worker → List ℕ → Option String
rejection k raw = of_message k (k.libs.loads raw)

-- What the worker does with a record that it rejects: it returns, commits the offset, and buries the
-- raw message with the reason; it sends nothing and leaves the delivery table alone.
pub record IsBuried (k : Worker) (raw : List ℕ) (reason : String) (w : World)
    (p : Result Nothing × World) : Type 0 where
  pub returned : p.0 ≡ ok tt
  pub acknowledged : p.1.committed ≡ some w.position
  pub buried : p.1.dlq ≡ raw_letter k raw (some reason) w.clock ∷ w.dlq
  pub unsent : p.1.sent ≡ w.sent
  pub same_deliveries : p.1.deliveries ≡ w.deliveries

module _ (k : Worker) (reliable : IsReliable k) (raw : List ℕ) (w : World) where
  abbrev rejected_world : String → World
  rejected_world reason = enqueue_dlq (raw_letter k raw (some reason) w.clock) (tick k w)

  validated-rejected :
      (reason : String) (o : Option NotificationJob)
      → of_payload o ≡ some reason
      → validated k raw o w ≡ (ok true, rejected_world reason)
  unfolding continue
  validated-rejected reason none e =
      rw (publish_raw-done k reliable raw _ w)
        (ap (λ t. (ok true, rejected_world t)) (some-injective _ reason e))
  validated-rejected reason (some job) e = absurd (cc)

  decoded-rejected :
      (reason : String) (o : Option Json)
      → of_message k o ≡ some reason
      → decoded k raw o w ≡ (ok true, rejected_world reason)
  unfolding continue
  decoded-rejected reason none e =
      rw (publish_raw-done k reliable raw _ w)
        (ap (λ t. (ok true, rejected_world t)) (some-injective _ reason e))
  decoded-rejected reason (some payload) e = validated-rejected reason (k.libs.validate payload) e

  -- Where the services work and the consumer is open, a record with a value that is no JSON or no
  -- NotificationJob is buried once, with the raw message and the reason, and its offset is
  -- committed; nothing is sent and the delivery table stays as it was.
  pub rejection-IsBuried :
      (msg : Record) (reason : String)
      → msg.raw_value ≡ some raw
      → rejection k raw ≡ some reason
      → w.consumer_open ≡ true
      → IsBuried k raw reason w (handle_and_commit k msg w)
  unfolding handle_message continue
  rejection-IsBuried msg reason c e o =
      rw
        (
          c,
          decoded-rejected reason (k.libs.loads raw) e,
          commit_message-done k reliable.kafka_done (rejected_world reason) o,
        )
        record {
          returned = refl;
          acknowledged = refl;
          buried = refl;
          unsent = refl;
          same_deliveries = refl;
        }

-- What a worker does with a record that has no value: its consumer's task raises and the consumer is
-- closed, with nothing sent, buried or committed and the delivery table as it was.
pub record IsStuck (w : World) (p : Result Nothing × World) : Type 0 where
  pub raises : p.0 ≡ raised no_value
  pub closed : p.1.consumer_open ≡ false
  pub uncommitted : p.1.committed ≡ w.committed
  pub unburied : p.1.dlq ≡ w.dlq
  pub unsent : p.1.sent ≡ w.sent
  pub same_deliveries : p.1.deliveries ≡ w.deliveries

-- Where Kafka works and the consumer is open and not told to stop, a consumer that gets a record
-- without a value ends its loop with the AttributeError that decoding None raises in publish_raw,
-- whatever records follow: the consumer is closed, nothing is sent or buried, no offset is
-- committed and the delivery table stays as it was.
pub tombstone-IsStuck :
    (k : Worker) (msg : Record) (msgs : List Record) (w : World)
    → ((n : ℕ) → k.env.outcome kafka n ≡ done)
    → msg.raw_value ≡ none
    → w.stopped ≡ false
    → w.consumer_open ≡ true
    → IsStuck w (run_loop k (msg ∷ msgs) w)
unfolding run_loop consume handle_message publish_raw stop_consumer call continue
tombstone-IsStuck k msg msgs w works n s o =
    rw (works w.calls, s, n, o, works (suc w.calls))
      record {
        raises = refl;
        closed = refl;
        uncommitted = refl;
        unburied = refl;
        unsent = refl;
        same_deliveries = refl;
      }
