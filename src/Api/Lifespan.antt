-- ===== src/Api/Lifespan.antt =====
-- notifications_api/main.py: the life of the API process and its readiness.
use notification_service_kaf.Prelude.{ℕ, Bool, true, false}
use notification_service_kaf.Runtime.{Worker, db}
use notification_service_kaf.Runtime.Monad.{
  Action, Nothing, pure, gets, catch, call, ensure, ◌>>=◌, ◌>>◌,
}
use notification_service_kaf.Api.Publisher.{start, stop_publisher, is_ready}

-- lifespan: what is served stands where it yields.
unfoldable pub lifespan : Worker → Action Nothing → Action Nothing
lifespan k serving = start k >> ensure serving (stop_publisher k)

-- GET /health
abbrev pub health : Action ℕ
health = pure 200

-- The check of the database: a connection and SELECT 1.
unfoldable pub db_answers : Worker → Action Bool
db_answers k = catch (call k db (λ w. w) >> pure true) (λ e. pure false)

abbrev pub kafka_status : Bool → ℕ
kafka_status true = 200
kafka_status false = 503

abbrev pub ready_status : Bool → Action ℕ
ready_status true = gets (λ w. kafka_status (is_ready w))
ready_status false = pure 503

-- GET /ready, as the status of its response.
unfoldable pub ready : Worker → Action ℕ
ready k = db_answers k >>= ready_status
