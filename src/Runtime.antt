-- ===== src/Runtime.antt =====
-- What the worker's coroutines act on and how they fail: exceptions as values, the state that they
-- share, and the calls of services outside the repository (Postgres, Kafka, SMTP, HTTP, timers).
pub mod Monad
pub mod Trace
pub mod Views
pub mod Ensures
pub mod Retrying
use Prim.Native.Nat.{◌/◌, ◌%◌}
use Prim.Native.String.{slice}
use notification_service_kaf.Prelude.{
  ℕ, ◌+◌, cat, ◌≡◌, ◌⊎◌, String, List, Option, Bool, true, false,
}
use notification_service_kaf.Schemas.{Json, Members, NotificationJob, Template}
use notification_service_kaf.Events.{BaseEvent, UserRegistered, NewFilmReleased, CampaignTriggered}
use notification_service_kaf.Campaigns.{Campaign}
use notification_service_kaf.Deliveries.{Table}

-- The exceptions that the code raises or tells apart, each with its str(). `http_exception` is
-- FastAPI's HTTPException with its status and detail; `kafka_connection_error` is a subclass of
-- KafkaError; `other_error` is any other subclass of Exception. SystemExit and
-- asyncio.CancelledError (`cancelled`) are none.
pub data Exc : Type 0 where
  runtime_error value_error key_error index_error attribute_error : String → Exc
  kafka_error kafka_connection_error os_error postgres_error operational_error : String → Exc
  other_error : String → Exc
  integrity_error : String → Exc
  http_exception : ℕ → String → Exc
  system_exit : ℕ → Exc
  cancelled : Exc

-- What `except Exception` catches.
abbrev pub is_exception : Exc → Bool
is_exception (runtime_error m) = true
is_exception (value_error m) = true
is_exception (key_error m) = true
is_exception (index_error m) = true
is_exception (attribute_error m) = true
is_exception (kafka_error m) = true
is_exception (kafka_connection_error m) = true
is_exception (os_error m) = true
is_exception (postgres_error m) = true
is_exception (operational_error m) = true
is_exception (other_error m) = true
is_exception (integrity_error m) = true
is_exception (http_exception s m) = true
is_exception (system_exit code) = false
is_exception cancelled = false

abbrev digit : ℕ → String
digit n = slice "0123456789" n (n + 1)

-- A number of three digits, as the HTTP statuses are.
abbrev pub status_text : ℕ → String
status_text n = cat (digit (n / 100)) (cat (digit (n / 10 % 10)) (digit (n % 10)))

-- str(exc); that of an HTTPException is `status: detail`. An exit code has one digit.
abbrev pub exc_text : Exc → String
exc_text (runtime_error m) = m
exc_text (value_error m) = m
exc_text (key_error m) = m
exc_text (index_error m) = m
exc_text (attribute_error m) = m
exc_text (kafka_error m) = m
exc_text (kafka_connection_error m) = m
exc_text (os_error m) = m
exc_text (postgres_error m) = m
exc_text (operational_error m) = m
exc_text (other_error m) = m
exc_text (integrity_error m) = m
exc_text (http_exception s m) = cat (status_text s) (cat ": " m)
exc_text (system_exit code) = digit code
exc_text cancelled = ""

-- The payload that DlqPublisher sends, before json.dumps. Both have `failed_at`.
pub data DlqPayload : Type 0 where
  of_job : Json → Option String → ℕ → DlqPayload
  of_raw : String → Option String → ℕ → DlqPayload

pub record DlqMessage : Type 0 where
  pub topic : String
  pub key : Option String
  pub payload : DlqPayload

pub record Email : Type 0 where
  pub hostname : String
  pub port : ℕ
  pub sender : String
  pub to : Json
  pub subject : String
  pub body : String

-- A notification that has left the worker: an email handed to SMTP, or a log line of a stub sender.
pub data Notification : Type 0 where
  by_email : Email → Notification
  by_push by_ws : Json → String → String → Notification

-- The state that the processes act on. `ready` says that the marker file of the process exists, and
-- `pool_open`, `producer_open` and `http_open` are its resources; `topics` are those of Kafka, and
-- `schema` says that the tables exist; `heartbeat` is what the heartbeat file holds. `calls` counts the awaited calls; `dlq`, `sent`, `outbox` and
-- `posted` have the newest entry first; `position` is the offset after the last record that was
-- fetched. `publisher_enabled` and `publisher_started` are `_enabled` and `_producer is not None` of
-- the API's job publisher.
pub record World : Type 0 where
  pub clock : ℕ
  pub calls : ℕ
  pub deliveries : Table
  pub templates : List Template
  pub sent : List Notification
  pub dlq : List DlqMessage
  pub consumer_open : Bool
  pub stopped : Bool
  pub position : ℕ
  pub committed : Option ℕ
  pub publisher_enabled : Bool
  pub publisher_started : Bool
  pub outbox : List Json
  pub campaigns : List Campaign
  pub posted : List BaseEvent
  pub ready : Bool
  pub pool_open : Bool
  pub producer_open : Bool
  pub http_open : Bool
  pub topics : List String
  pub schema : Bool
  pub heartbeat : Option ℕ

pub data Service : Type 0 where
  db kafka smtp timer disk http : Service

-- How a call ends: it succeeds; it raises and had no effect; it raises although it had its effect
-- (the answer was lost).
pub data Outcome : Type 0 where
  done : Outcome
  refused lost : Exc → Outcome

-- A call that is not cancelled ends, or raises what `except Exception` catches.
abbrev pub IsCaught : Outcome → Type 0
IsCaught done = Unit {0}
IsCaught (refused e) = is_exception e ≡ true
IsCaught (lost e) = is_exception e ≡ true

-- The Auth service's answer to one GET: an exception of the HTTP client, of raise_for_status or of
-- the JSON decoder, or the decoded body.
pub data HttpReply : Type 0 where
  failed : Exc → HttpReply
  answered : Json → HttpReply

-- The answer to one POST: an exception of the HTTP client, or a response with this status.
pub data PostReply : Type 0 where
  broken : Exc → PostReply
  responded : ℕ → PostReply

-- What the outside does, by the number of the call: nothing is assumed of it.
pub record Env : Type 0 where
  pub outcome : Service → ℕ → Outcome
  pub elapse : ℕ → ℕ
  pub db_now : ℕ → ℕ
  pub auth_reply : ℕ → HttpReply
  pub post_reply : ℕ → BaseEvent → PostReply
  pub uuid4 : ℕ → ℕ
  -- How a query ranks the rows that its ORDER BY leaves tied.
  pub template_rank : ℕ → Template → ℕ
  pub campaign_rank : ℕ → Campaign → ℕ

-- class Settings, as far as the worker reads it.
pub record Settings : Type 0 where
  pub project_name : String
  pub api_v1_prefix : String
  pub kafka_bootstrap_servers : String
  pub kafka_outbox_topic : String
  pub kafka_dlq_topic : String
  pub kafka_consumer_group : String
  pub db_host : String
  pub db_port : ℕ
  pub db_name : String
  pub db_user : String
  pub db_password : String
  pub db_echo : Bool
  pub max_attempts : ℕ
  pub retry_delays_seconds_raw : String
  pub max_send_delay_seconds : ℕ
  pub auth_base_url : Option String
  pub api_base_url : String
  pub scheduler_poll_interval_seconds : ℕ
  pub smtp_host : String
  pub smtp_port : ℕ
  pub smtp_from : String

-- Library functions that the code calls: str() of a UUID, of an integer and of a JSON value that is no text, repr()
-- of a text, float() of a text (a delay in microseconds, which is 0 where asyncio.sleep would not
-- wait; none is a ValueError), str.format of a text with a replacement field that is more than a
-- name, json.loads of decoded bytes, model_validate and model_dump of NotificationJob, decoding with
-- errors="replace", croniter(cron, base).get_next (none is an exception), and the validation of the
-- payloads (the right side is the text of the ValidationError).
pub record Libs : Type 0 where
  pub uuid_text : ℕ → String
  pub int_text : ℕ → String
  pub json_text : Json → String
  pub repr : String → String
  pub format_special : String → Members → String ⊎ Exc
  pub float : String → Option ℕ
  pub loads : List ℕ → Option Json
  pub validate : Json → Option NotificationJob
  pub model_dump : NotificationJob → Json
  pub decode_replace : List ℕ → String
  pub next_run : String → ℕ → Option ℕ
  pub parse_user_registered : Members → UserRegistered ⊎ String
  pub parse_new_film_released : Members → NewFilmReleased ⊎ String
  pub parse_campaign_triggered : Members → CampaignTriggered ⊎ String

-- A worker process: its settings, the libraries and its surroundings; `has_http` says that the
-- AuthClient was given an HTTP client.
pub record Worker : Type 0 where
  pub settings : Settings
  pub libs : Libs
  pub env : Env
  pub has_http : Bool
