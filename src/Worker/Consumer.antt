-- ===== src/Worker/Consumer.antt =====
-- worker/consumer/kafka_consumer.py: KafkaNotificationConsumer, over the records that Kafka gives
-- out in turn.
use notification_service_kaf.Prelude.{
  ℕ, suc, List, [], ◌∷◌, Option, none, some, Bool, true, false, if◌then◌else◌,
}
use notification_service_kaf.Schemas.{NotificationJob, Json}
use notification_service_kaf.Runtime.{
  runtime_error, kafka_error, kafka_connection_error, exc_text, World, Worker, kafka,
}
use notification_service_kaf.Runtime.Monad.{
  Result, ok, raised, Action, Nothing, pure, raise, gets, ◌>>=◌, ◌>>◌, catch, call,
}
use notification_service_kaf.Worker.Dlq.{publish_job, publish_raw}
use notification_service_kaf.Worker.Processor.{handle_job}

-- class ConsumerRecord; a tombstone has no value.
pub record Record : Type 0 where
  pub offset : ℕ
  pub raw_value : Option (List ℕ)

abbrev pub process : Worker → NotificationJob → Action Bool
process k job =
    catch (handle_job k job >> pure true)
      (λ exc. publish_job k job (some (exc_text exc)) >> pure true)

abbrev pub validated : Worker → List ℕ → Option NotificationJob → Action Bool
validated k raw none =
    publish_raw k (some raw) (some "Invalid NotificationJob payload") >> pure true
validated k raw (some job) = process k job

abbrev pub decoded : Worker → List ℕ → Option Json → Action Bool
decoded k raw none = publish_raw k (some raw) (some "Invalid JSON in Kafka message") >> pure true
decoded k raw (some payload) = validated k raw (k.libs.validate payload)

-- `None.decode` raises too, and the same handler catches it.
abbrev pub read_value : Worker → Option (List ℕ) → Action Bool
read_value k none = publish_raw k none (some "Invalid JSON in Kafka message") >> pure true
read_value k (some raw) = decoded k raw (k.libs.loads raw)

unfoldable pub handle_message : Worker → Record → Action Bool
handle_message k msg = read_value k msg.raw_value

-- AIOKafkaConsumer.commit(): the position of the consumer becomes the group's offset.
abbrev pub commit_position : World → World
commit_position w = record w { committed = some w.position }

unfoldable pub commit_message : Worker → Action Nothing
commit_message k = do
  started ← gets (λ w. w.consumer_open)
  if started
      then call k kafka commit_position
      else raise (runtime_error "Kafka consumer is not initialized")

-- _stop_consumer
abbrev pub close : World → World
close w = record w { consumer_open = false }

unfoldable pub stop_consumer : Worker → Action Nothing
stop_consumer k = do
  started ← gets (λ w. w.consumer_open)
  if started then call k kafka (λ w. w) >> (λ w. (ok tt, close w)) else pure tt

-- stop()
unfoldable pub stop : Worker → Action Nothing
stop k w = stop_consumer k (record w { stopped = true })

-- The iterator hands out a record: the position moves past it.
abbrev pub fetch : Record → World → World
fetch msg w = record w { position = suc msg.offset }

abbrev pub handle_and_commit : Worker → Record → Action Nothing
handle_and_commit k msg = do
  handled ← handle_message k msg
  if handled then commit_message k else pure tt

-- async for msg in self._consumer, over the records that arrive before the stream ends.
unfoldable pub consume : Worker → List Record → Action Nothing
consume k [] = pure tt
consume k (msg ∷ msgs) =
    let rest = handle_and_commit k msg >> consume k msgs in
    do
      call k kafka (fetch msg)
      stopping ← gets (λ w. w.stopped)
      if stopping then pure tt else rest

-- except KafkaError logs, all else is raised again, and `finally` stops the consumer first.
abbrev pub after_loop : Worker → Result Nothing → Action Nothing
after_loop k (ok u) = stop_consumer k
after_loop k (raised (kafka_error m)) = stop_consumer k
after_loop k (raised (kafka_connection_error m)) = stop_consumer k
after_loop k (raised e) = stop_consumer k >> raise e

-- start(), from the moment that the consumer has been started.
unfoldable pub run_loop : Worker → List Record → Action Nothing
run_loop k msgs w = let (r, w') = consume k msgs w in after_loop k r w'

abbrev pub opened : World → World
opened w = record w { consumer_open = true }

-- start(): the consumer object is made, started, and its records are handled.
unfoldable pub start_consumer : Worker → List Record → Action Nothing
start_consumer k msgs w = (call k kafka (λ v. v) >> run_loop k msgs) (opened w)
