-- ===== src/Worker/Startup.antt =====
-- worker/startup.py: the worker's connections, with bounded retries.
use notification_service_kaf.Prelude.{ℕ, Bool, true, false}
use notification_service_kaf.Runtime.{
  Exc, kafka_connection_error, os_error, postgres_error, World, Worker, db, kafka,
}
use notification_service_kaf.Runtime.Monad.{Action, Nothing, ok, raise, call, sleep, ◌>>◌}
use notification_service_kaf.Runtime.Retrying.{retrying}
use notification_service_kaf.Worker.Repo.{seconds}

-- except (OSError, asyncpg.PostgresError)
abbrev pub is_connection_failure : Exc → Bool
is_connection_failure (os_error m) = true
is_connection_failure (postgres_error m) = true
is_connection_failure _ = false

abbrev pub open_pool : World → World
open_pool w = record w { pool_open = true }

-- max_attempts is 10: the last attempt, and nine before it. The last exception is raised again.
unfoldable pub create_db_pool : Worker → Action Nothing
create_db_pool k =
    retrying is_connection_failure (call k db open_pool) (λ e. raise e) (sleep k (seconds 1)) 9

-- except KafkaConnectionError
abbrev pub is_kafka_connection : Exc → Bool
is_kafka_connection (kafka_connection_error m) = true
is_kafka_connection _ = false

abbrev pub open_producer : World → World
open_producer w = record w { producer_open = true }

abbrev pub close_producer : World → World
close_producer w = record w { producer_open = false }

-- The producer is stopped before the last exception is raised again.
abbrev pub give_up_kafka : Worker → Exc → Action Nothing
give_up_kafka k e = call k kafka close_producer >> raise e

-- The last attempt to start the producer, and `left` before it.
abbrev pub producer_attempts : Worker → ℕ → Action Nothing
producer_attempts k left =
    retrying is_kafka_connection (call k kafka open_producer) (give_up_kafka k)
      (sleep k (seconds 1)) left

unfoldable pub create_kafka_producer : Worker → Action Nothing
create_kafka_producer k = producer_attempts k 9

unfoldable pub create_http_client : Action Nothing
create_http_client w = (ok tt, record w { http_open = true })
