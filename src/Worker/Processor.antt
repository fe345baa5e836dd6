-- ===== src/Worker/Processor.antt =====
-- worker/processor/job_processor.py: JobProcessor.
use notification_service_kaf.Prelude.{
  ℕ, String, cat, Option, none, some, Bool, true, false, leb, str_eq, if◌then◌else◌,
}
use notification_service_kaf.Schemas.{
  NotificationStatus, sent, failed, expired, processing, retrying, NotificationChannel, email, push,
  ws, value, NotificationJob, NotificationDelivery, truthy,
}
use notification_service_kaf.Config.{retry_delays_seconds}
use notification_service_kaf.Format.{format}
use notification_service_kaf.Runtime.{Exc, runtime_error, key_error, Worker}
use notification_service_kaf.Runtime.Monad.{
  Result, raised, Action, Nothing, pure, raise, of_result, or_raise, ◌>>=◌, ◌>>◌,
}
use notification_service_kaf.Worker.Repo.{get_by_job_id, try_claim_job, get_template}
use notification_service_kaf.Worker.Auth.{UserContacts, get_user_contacts}
use notification_service_kaf.Worker.Senders.{send_email, send_push, send_ws}
use notification_service_kaf.Worker.Timing.{
  attempts_of, handle_expiration_if_needed, wait_send_after_if_needed,
}
use notification_service_kaf.Worker.Retry.{attempt_with_retries}

-- `channel: NotificationChannel | str`
pub data ChannelOrText : Type 0 where
  member : NotificationChannel → ChannelOrText
  plain : String → ChannelOrText

abbrev pub normalize_channel : ChannelOrText → String
normalize_channel (member c) = value c
normalize_channel (plain s) = s

abbrev pub skips : ℕ → NotificationStatus → ℕ → Bool
skips max_attempts sent attempts = true
skips max_attempts expired attempts = leb max_attempts attempts
skips max_attempts failed attempts = leb max_attempts attempts
skips max_attempts processing attempts = false
skips max_attempts retrying attempts = false

unfoldable pub should_skip : ℕ → Option NotificationDelivery → Bool
should_skip max_attempts none = false
should_skip max_attempts (some r) = skips max_attempts r.status r.attempts

-- `template.subject or ""`
abbrev pub or_blank : Option String → String
or_blank none = ""
or_blank (some s) = s

-- except KeyError as exc: raise RuntimeError(…)
abbrev pub missing_var : {A : Type 0} → Result A → Result A
missing_var (raised (key_error m)) = raised (runtime_error (cat "Missing var in template: " m))
missing_var r = r

abbrev pub template_not_found : NotificationJob → String → Exc
template_not_found job channel = runtime_error (
    cat "Template not found: code="
      (cat job.template_code (cat " locale=" (cat job.locale (cat " channel=" channel)))))

-- The branches on the channel.
abbrev pub dispatch : Worker → String → UserContacts → String → String → Action Nothing
dispatch k channel contacts subject body =
    if str_eq channel (value email)
    then if truthy contacts.email
      then send_email k contacts.email subject body
      else raise (runtime_error "User has no email")
    else if str_eq channel (value push)
    then if truthy contacts.push_token
      then send_push contacts.push_token subject body
      else raise (runtime_error "User has no push token")
    else if str_eq channel (value ws)
    then if truthy contacts.ws_session_id
      then send_ws contacts.ws_session_id subject body
      else raise (runtime_error "User has no ws session id")
    else raise (runtime_error (cat "Unsupported channel: " channel))

unfoldable pub attempt_send : Worker → NotificationJob → Action Nothing
attempt_send k job =
    let channel_str = normalize_channel (member job.channel) in
    do
      contacts ← get_user_contacts k job.user_id
      found ← get_template k job.template_code job.locale channel_str
      template ← or_raise found (template_not_found job channel_str)
      subject ← of_result (missing_var (format k.libs (or_blank template.subject) job.job_data))
      body ← of_result (missing_var (format k.libs template.body job.job_data))
      dispatch k channel_str contacts subject body

abbrev pub deliver_claimed :
    Worker → NotificationJob → Option NotificationDelivery → Bool → Action Nothing
deliver_claimed k job existing false = pure tt
deliver_claimed k job existing true = do
  retry_delays ← of_result (retry_delays_seconds k.libs k.settings)
  attempt_with_retries k job k.settings.max_attempts retry_delays (attempt_send k)
      (attempts_of existing)

abbrev pub claim_and_deliver :
    Worker → NotificationJob → Option NotificationDelivery → Action Nothing
claim_and_deliver k job existing = do
  wait_send_after_if_needed k job
  claimed ← try_claim_job k job.job_id job.user_id (normalize_channel (member job.channel))
  deliver_claimed k job existing claimed

abbrev pub unless_expired :
    Worker → NotificationJob → Option NotificationDelivery → Bool → Action Nothing
unless_expired k job existing true = pure tt
unless_expired k job existing false = claim_and_deliver k job existing

abbrev pub unless_skipped :
    Worker → NotificationJob → Option NotificationDelivery → Bool → Action Nothing
unless_skipped k job existing true = pure tt
unless_skipped k job existing false = do
  expired? ← handle_expiration_if_needed k job existing
  unless_expired k job existing expired?

unfoldable pub handle_job : Worker → NotificationJob → Action Nothing
handle_job k job = do
  existing ← get_by_job_id k job.job_id
  unless_skipped k job existing (should_skip k.settings.max_attempts existing)
