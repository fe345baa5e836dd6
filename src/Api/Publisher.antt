-- ===== src/Api/Publisher.antt =====
-- common/kafka.py: KafkaNotificationJobPublisher. Its producer's start and stop, and its sends, are
-- calls of Kafka.
use notification_service_kaf.Prelude.{
  ℕ, zero, suc, ◌∷◌, Bool, true, false, not, ◌&&◌, ◌||◌, if◌then◌else◌,
}
use notification_service_kaf.Schemas.{Json}
use notification_service_kaf.Runtime.{World, Worker, kafka}
use notification_service_kaf.Runtime.Monad.{
  Action, Nothing, Result, ok, pure, ◌>>=◌, ◌>>◌, catch, call, sleep,
}
use notification_service_kaf.Worker.Repo.{seconds}

abbrev pub set_publisher : Bool → Bool → Action Nothing
set_publisher enabled started w =
    (ok tt, record w { publisher_enabled = enabled; publisher_started = started })

-- try: await producer.stop() except Exception: log
abbrev pub stop_quietly : Worker → Action Nothing
stop_quietly k = catch (call k kafka (λ w. w)) (λ e. pure tt)

-- After a failed start of the producer: `left` attempts remain.
abbrev pub after_failed_start : Worker → ℕ → Action Nothing → Action Nothing
after_failed_start k zero again = stop_quietly k >> set_publisher false false
after_failed_start k (suc left) again = stop_quietly k >> (sleep k (seconds 1) >> again)

abbrev pub started_or : Action Nothing → Bool → Action Nothing
started_or otherwise true = set_publisher true true
started_or otherwise false = otherwise

-- try: await producer.start(), as whether it succeeded.
abbrev pub try_start : Worker → Action Bool
try_start k = catch (call k kafka (λ w. w) >> pure true) (λ e. pure false)

-- The attempts of start(): the last of them and `left` before it.
unfoldable pub start_attempts : Worker → ℕ → Action Nothing
start_attempts k zero = try_start k >>= started_or (after_failed_start k zero (pure tt))
start_attempts k (suc left) =
    let again = start_attempts k left in
    try_start k >>= started_or (after_failed_start k (suc left) again)

-- max_attempts is 10: the last attempt, and nine before it.
unfoldable pub start : Worker → Action Nothing
start k w =
    if w.publisher_started || not w.publisher_enabled then (ok tt, w) else start_attempts k 9 w

unfoldable pub is_ready : World → Bool
is_ready w = w.publisher_enabled && w.publisher_started

-- finally: self._producer = None
abbrev pub forget_producer : Result Nothing × World → Result Nothing × World
forget_producer (r, w) = (r, record w { publisher_started = false })

unfoldable pub stop_publisher : Worker → Action Nothing
stop_publisher k w = if w.publisher_started then forget_producer (stop_quietly k w) else (ok tt, w)

abbrev pub enqueue : Json → World → World
enqueue payload w = record w { outbox = payload ∷ w.outbox }

unfoldable pub publish : Worker → Json → Action Nothing
publish k payload w =
    if not w.publisher_enabled || not w.publisher_started
    then (ok tt, w)
    else catch (call k kafka (enqueue payload)) (λ e. pure tt) w
