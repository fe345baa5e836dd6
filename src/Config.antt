-- ===== src/Config.antt =====
-- common/config.py: the settings that are computed from others.
pub mod Delays
use notification_service_kaf.Prelude.{
  String, List, [], ◌∷◌, Option, none, some, if◌then◌else◌, ℕ, cat, false,
}
use notification_service_kaf.Text.{strip, split}
use notification_service_kaf.Schemas.{is_blank}
use notification_service_kaf.Runtime.{Exc, value_error, Libs, Settings}
use notification_service_kaf.Runtime.Monad.{Result, ok, raised}

-- The values that the class gives to its fields.
abbrev pub default_settings : Settings
default_settings = record {
  project_name = "Notification API";
  api_v1_prefix = "/api/v1";
  kafka_bootstrap_servers = "kafka:29092";
  kafka_outbox_topic = "notifications.outbox";
  kafka_dlq_topic = "notifications.dlq";
  kafka_consumer_group = "notification-worker";
  db_host = "notifications-db";
  db_port = 5432;
  db_name = "notifications";
  db_user = "notifications";
  db_password = "notifications";
  db_echo = false;
  max_attempts = 3;
  retry_delays_seconds_raw = "1,3,10";
  max_send_delay_seconds = 300;
  auth_base_url = none;
  api_base_url = "http://notifications-api:8000";
  scheduler_poll_interval_seconds = 60;
  smtp_host = "mailpit";
  smtp_port = 1025;
  smtp_from = "noreply@example.com";
}

-- f"//{user}:{password}@{host}:{port}/{name}"
abbrev address : Libs → Settings → String
address l s = cat "://" (
    cat s.db_user (
      cat ":" (
        cat s.db_password
          (cat "@" (cat s.db_host (cat ":" (cat (l.int_text s.db_port) (cat "/" s.db_name))))))))

unfoldable pub db_dsn : Libs → Settings → String
db_dsn l s = cat "postgresql+asyncpg" (address l s)

unfoldable pub db_asyncpg_dsn : Libs → Settings → String
db_asyncpg_dsn l s = cat "postgresql" (address l s)

-- [p.strip() for p in words if p.strip()]
unfoldable pub stripped_words : List String → List String
stripped_words [] = []
stripped_words (w ∷ ws) =
    let rest = stripped_words ws in if is_blank (strip w) then rest else strip w ∷ rest

-- [float(p) for p in parts]; none where one of the calls raises ValueError.
abbrev push_front : Option ℕ → Option (List ℕ) → Option (List ℕ)
push_front none rest = none
push_front (some d) none = none
push_front (some d) (some ds) = some (d ∷ ds)

unfoldable pub floats : Libs → List String → Option (List ℕ)
floats l [] = some []
floats l (p ∷ ps) = push_front (l.float p) (floats l ps)

abbrev pub comma : ℕ
comma = b','

abbrev pub empty_delays : Exc
empty_delays =
    value_error
      "RETRY_DELAYS_SECONDS_RAW is empty. Expected comma-separated numbers, e.g. '1,3,10'."

abbrev pub invalid_delays : Exc
invalid_delays =
    value_error "Invalid RETRY_DELAYS_SECONDS_RAW. Expected comma-separated numbers, e.g. '1,3,10'."

abbrev of_floats : Option (List ℕ) → Result (List ℕ)
of_floats none = raised invalid_delays
of_floats (some ds) = ok ds

abbrev of_parts : Libs → List String → Result (List ℕ)
of_parts l [] = raised empty_delays
of_parts l (p ∷ ps) = of_floats (floats l (p ∷ ps))

-- Settings.retry_delays_seconds, in microseconds.
unfoldable pub retry_delays_seconds : Libs → Settings → Result (List ℕ)
unfolding stripped_words
retry_delays_seconds l s = of_parts l (stripped_words (split comma s.retry_delays_seconds_raw))
