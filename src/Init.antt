-- ===== src/Init.antt =====
-- kafka_init.py and db_init.py: the jobs that prepare Kafka's topics and the database's tables.
pub mod Topics
use notification_service_kaf.Prelude.{
  String, List, [], ◌∷◌, ◌++◌, Bool, true, false, not, ◌||◌, str_eq, if◌then◌else◌,
}
use notification_service_kaf.Runtime.{
  Exc, kafka_error, kafka_connection_error, os_error, operational_error, system_exit, World, Worker,
  db, kafka,
}
use notification_service_kaf.Runtime.Monad.{
  Action, Nothing, ok, pure, raise, ◌>>=◌, ◌>>◌, call, ask, sleep, ensure,
}
use notification_service_kaf.Runtime.Retrying.{retrying}
use notification_service_kaf.Worker.Repo.{seconds}

-- except KafkaError, except OSError
abbrev pub is_kafka_failure : Exc → Bool
is_kafka_failure (kafka_error m) = true
is_kafka_failure (kafka_connection_error m) = true
is_kafka_failure (os_error m) = true
is_kafka_failure _ = false

-- The start and the close of an admin client.
abbrev pub check_kafka : Worker → Action Nothing
check_kafka k = call k kafka (λ w. w) >> call k kafka (λ w. w)

-- attempts is 20: the last one, and nineteen before it.
unfoldable pub wait_for_kafka : Worker → Action Nothing
wait_for_kafka k =
    retrying is_kafka_failure (check_kafka k) (λ e. raise (system_exit 1)) (sleep k (seconds 1)) 19

-- `name in existing`
unfoldable pub has_topic : String → List String → Bool
has_topic t [] = false
has_topic t (u ∷ us) = str_eq u t || has_topic t us

abbrev pub if_missing : String → List String → List String
if_missing t existing = if has_topic t existing then [] else t ∷ []

abbrev pub topics_to_create : Worker → List String → List String
topics_to_create k existing =
    if_missing k.settings.kafka_outbox_topic existing
    ++ if_missing k.settings.kafka_dlq_topic existing

abbrev pub add_topics : List String → World → World
add_topics names w = record w { topics = names ++ w.topics }

abbrev pub create_missing : Worker → List String → Action Nothing
create_missing k [] = pure tt
create_missing k (t ∷ ts) = call k kafka (add_topics (t ∷ ts))

unfoldable pub create_topics : Worker → Action Nothing
create_topics k = do
  wait_for_kafka k
  call k kafka (λ w. w)
  ensure
      (ask k kafka (λ w. (w.topics, w)) >>= λ existing.
        create_missing k (topics_to_create k existing))
      (call k kafka (λ w. w))

-- except OperationalError
abbrev pub is_operational : Exc → Bool
is_operational (operational_error m) = true
is_operational _ = false

abbrev pub create_all : World → World
create_all w = record w { schema = true }

-- main() of db_init.py: max_attempts is 10, with two seconds between; then the engine is disposed of.
unfoldable pub create_schema : Worker → Action Nothing
create_schema k =
    retrying is_operational (call k db create_all) (λ e. raise e) (sleep k (seconds 2)) 9
    >> call k db (λ w. w)
