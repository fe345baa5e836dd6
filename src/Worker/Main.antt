-- ===== src/Worker/Main.antt =====
-- worker/main.py: app(), over the records that reach the consumer before it is cancelled. The
-- consumer's task is the only one that acts while app() waits for the stop event, so the two are run
-- one after the other; the heartbeat task writes a file of its own.
use notification_service_kaf.Prelude.{List, false}
use notification_service_kaf.Config.{retry_delays_seconds}
use notification_service_kaf.Runtime.{cancelled, World, Worker, db, kafka, http}
use notification_service_kaf.Runtime.Monad.{
  Action, Nothing, Result, ok, raised, of_result, call, ensure, ◌>>◌,
}
use notification_service_kaf.Health.{mark_ready, clear_ready}
use notification_service_kaf.Worker.Startup.{
  create_db_pool, create_kafka_producer, create_http_client, close_producer,
}
use notification_service_kaf.Worker.Consumer.{Record, start_consumer}

-- except asyncio.CancelledError, around the await of the consumer's task.
abbrev pub swallow_cancelled : Result Nothing × World → Result Nothing × World
swallow_cancelled (raised cancelled, w) = (ok tt, w)
swallow_cancelled (r, w) = (r, w)

-- The consumer's task up to the stop event, and the await of the cancelled task.
unfoldable pub serve : Worker → List Record → Action Nothing
serve k msgs w = swallow_cancelled (start_consumer k msgs w)

abbrev pub close_http : World → World
close_http w = record w { http_open = false }

abbrev pub close_pool : World → World
close_pool w = record w { pool_open = false }

-- The block `finally`.
unfoldable pub shut_down : Worker → Action Nothing
shut_down k = do
  clear_ready k
  call k http close_http
  call k kafka close_producer
  call k db close_pool

unfoldable pub app : Worker → List Record → Action Nothing
app k msgs = do
  of_result (retry_delays_seconds k.libs k.settings)
  clear_ready k
  create_db_pool k
  create_kafka_producer k
  create_http_client
  mark_ready k
  ensure (serve k msgs) (shut_down k)
