-- ===== src/Worker/Dlq.antt =====
-- worker/dlq/publisher.py: DlqPublisher. The payload is kept as it is before json.dumps.
use notification_service_kaf.Prelude.{ℕ, String, List, ◌∷◌, Option, none, some, if◌then◌else◌}
use notification_service_kaf.Schemas.{NotificationJob, is_blank}
use notification_service_kaf.Runtime.{
  Exc, attribute_error, World, Worker, DlqMessage, DlqPayload, of_job, of_raw, kafka,
}
use notification_service_kaf.Runtime.Monad.{Action, Nothing, raise, gets, ◌>>=◌, call}

abbrev pub enqueue_dlq : DlqMessage → World → World
enqueue_dlq m w = record w { dlq = m ∷ w.dlq }

-- `key.encode("utf-8") if key else None`
abbrev key_bytes : Option String → Option String
key_bytes none = none
key_bytes (some key) = if is_blank key then none else some key

abbrev pub dlq_message : Worker → DlqPayload → Option String → DlqMessage
dlq_message k payload key = record {
  topic = k.settings.kafka_dlq_topic;
  key = key_bytes key;
  payload = payload;
}

-- DlqPublisher._send
unfoldable pub send_dlq : Worker → DlqPayload → Option String → Action Nothing
send_dlq k payload key = call k kafka (enqueue_dlq (dlq_message k payload key))

unfoldable pub publish_job : Worker → NotificationJob → Option String → Action Nothing
publish_job k job error = do
  failed_at ← gets (λ w. w.clock)
  send_dlq k (of_job (k.libs.model_dump job) error failed_at) (some (k.libs.uuid_text job.job_id))

-- `raw_value.decode`, where there is no value.
abbrev pub no_value : Exc
no_value = attribute_error "'NoneType' object has no attribute 'decode'"

unfoldable pub publish_raw : Worker → Option (List ℕ) → Option String → Action Nothing
publish_raw k none error = raise no_value
publish_raw k (some raw) error = do
  failed_at ← gets (λ w. w.clock)
  send_dlq k (of_raw (k.libs.decode_replace raw) error failed_at) none
