-- ===== src/Worker/Step/Handle.antt =====
-- What handle_job does, on every branch and however it ends, is a sequence of steps of its job.
use notification_service_kaf.Prelude.{
  arith, refl, ℕ, String, Option, none, some, Bool, true, false, ◌-◌, min, leb, str_eq,
}
use notification_service_kaf.Schemas.{
  NotificationJob, NotificationDelivery, Json, null, bool, number, text, array, object, truthy,
  email, push, ws, value,
}
use notification_service_kaf.Runtime.{World, Worker, HttpReply, failed, answered, is_exception}
use notification_service_kaf.Runtime.Trace.{
  Steps, here, next, Steps-continue, Steps-or_raise, Steps-call, Steps-ask, Steps-if, Steps-trans,
}
use notification_service_kaf.Worker.Repo.{get_template, seconds}
use notification_service_kaf.Worker.Auth.{
  UserContacts, get_user_contacts, read_reply, contacts_of, is_unset,
}
use notification_service_kaf.Worker.Senders.{send_email, send_push, send_ws}
use notification_service_kaf.Worker.Timing.{
  handle_expiration_if_needed, expire_at, wait_send_after_if_needed, wait_until,
}
use notification_service_kaf.Worker.Retry.{attempt_with_retries}
use notification_service_kaf.Worker.Processor.{
  attempt_send, dispatch, handle_job, deliver_claimed, claim_and_deliver, unless_expired,
  unless_skipped, should_skip, normalize_channel, member,
}
use notification_service_kaf.Worker.Step.{Step, passed, delivered}
use notification_service_kaf.Worker.Step.Runs.{
  Does, mark_expired-Does, get_by_job_id-Does, sleep-Does, try_claim_job-Does, rounds-Does,
}

module _ (k : Worker) (job : NotificationJob) where
  contacts_of-Does : (user : ℕ) (body : Json) → Does k job (contacts_of user body)
  contacts_of-Does user (object ms) w = here
  contacts_of-Does user null w = here
  contacts_of-Does user (bool b) w = here
  contacts_of-Does user (number s z) w = here
  contacts_of-Does user (text s) w = here
  contacts_of-Does user (array xs) w = here

  read_reply-Does : (user : ℕ) (r : HttpReply) → Does k job (read_reply k user r)
  read_reply-Does user (failed e) w = Steps-if (is_exception e) w _ _ here here
  read_reply-Does user (answered body) w = contacts_of-Does user body w

  get_user_contacts-Does : (user : ℕ) → Does k job (get_user_contacts k user)
  unfolding get_user_contacts
  get_user_contacts-Does user w = Steps-if (is_unset k.settings.auth_base_url) w _ _ here (
      Steps-if k.has_http w _ _
        (Steps-trans (next here (passed w)) (read_reply-Does user (k.env.auth_reply w.calls) _))
        here)

  get_template-Does : (c l ch : String) → Does k job (get_template k c l ch)
  unfolding get_template
  get_template-Does c l ch w = Steps-ask k passed _ _ w here

  send_email-Does : (to : Json) (s b : String) → Does k job (send_email k to s b)
  unfolding send_email
  send_email-Does to s b w = Steps-call k passed _ _ w (next here (delivered _ _))

  send_push-Does : (to : Json) (s b : String) → Does k job (send_push to s b)
  unfolding send_push
  send_push-Does to s b w = Steps-if (truthy to) w _ _ (next here (delivered _ _)) here

  send_ws-Does : (to : Json) (s b : String) → Does k job (send_ws to s b)
  unfolding send_ws
  send_ws-Does to s b w = Steps-if (truthy to) w _ _ (next here (delivered _ _)) here

  dispatch-Does : (ch : String) (c : UserContacts) (s b : String) → Does k job (dispatch k ch c s b)
  dispatch-Does ch c s b w =
      Steps-if (str_eq ch (value email)) w _ _
        (Steps-if (truthy c.email) w _ _ (send_email-Does _ s b w) here)
        (Steps-if (str_eq ch (value push)) w _ _
          (Steps-if (truthy c.push_token) w _ _ (send_push-Does _ s b w) here)
          (Steps-if (str_eq ch (value ws)) w _ _
            (Steps-if (truthy c.ws_session_id) w _ _ (send_ws-Does _ s b w) here) here))

  pub attempt_send-Does : Does k job (attempt_send k job)
  unfolding attempt_send
  attempt_send-Does w = Steps-continue _ w _ (get_user_contacts-Does _ w) λ c w₁.
      Steps-continue _ w₁ _ (get_template-Does _ _ _ w₁) λ o w₂.
        Steps-continue _ w₂ _ (Steps-or_raise o _ w₂) λ t w₃. Steps-continue _ w₃ _ here λ s w₄.
          Steps-continue _ w₄ _ here
            λ b. dispatch-Does (normalize_channel (member job.channel)) c s b

  expire_at-Does :
      (o : Option NotificationDelivery) (e : Option ℕ) (now : ℕ)
      → Does k job (expire_at k job o e now)
  expire_at-Does o none now w = here
  expire_at-Does o (some e) now w =
      Steps-if (leb now e) w _ _ here
        (Steps-continue _ w _ (mark_expired-Does k job _ w) λ u w'. here)

  handle_expiration-Does :
      (o : Option NotificationDelivery) → Does k job (handle_expiration_if_needed k job o)
  unfolding handle_expiration_if_needed
  handle_expiration-Does o w = Steps-continue _ w _ here (expire_at-Does o job.expires_at)

  wait_until-Does : (e : Option ℕ) (now : ℕ) → Does k job (wait_until k e now)
  wait_until-Does none now w = here
  wait_until-Does (some target) now w = Steps-if (leb target now) w _ _ here (
      Steps-if (leb (min (target - now) (seconds k.settings.max_send_delay_seconds)) 0) w _ _ here
        (sleep-Does k job _ w))

  wait_send_after-Does : Does k job (wait_send_after_if_needed k job)
  unfolding wait_send_after_if_needed
  wait_send_after-Does w = Steps-continue _ w _ here (wait_until-Does job.send_after)

  deliver_claimed-Does :
      (o : Option NotificationDelivery) (b : Bool) → Does k job (deliver_claimed k job o b)
  unfolding attempt_with_retries
  deliver_claimed-Does o false w = here
  deliver_claimed-Does o true w = Steps-continue _ w _ here λ delays.
      rounds-Does k job delays (attempt_send k) attempt_send-Does _ _ (λ p. omega (arith, p))

  claim_and_deliver-Does :
      (o : Option NotificationDelivery) → Does k job (claim_and_deliver k job o)
  claim_and_deliver-Does o w = Steps-continue _ w _ (wait_send_after-Does w) λ u w₁.
      Steps-continue _ w₁ _ (try_claim_job-Does k job _ (job.channel, refl) w₁)
        (deliver_claimed-Does o)

  unless_expired-Does :
      (o : Option NotificationDelivery) (b : Bool) → Does k job (unless_expired k job o b)
  unless_expired-Does o true w = here
  unless_expired-Does o false w = claim_and_deliver-Does o w

  unless_skipped-Does :
      (o : Option NotificationDelivery) (b : Bool) → Does k job (unless_skipped k job o b)
  unless_skipped-Does o true w = here
  unless_skipped-Does o false w =
      Steps-continue _ w _ (handle_expiration-Does o w) (unless_expired-Does o)

  -- Whatever handle_job does, and however it ends, it does by steps of its job.
  pub handle_job-Steps : (w : World) → Steps (Step k job) w (handle_job k job w).1
  unfolding handle_job
  handle_job-Steps w =
      Steps-continue _ w _ (get_by_job_id-Does k job _ w)
        λ o. unless_skipped-Does o (should_skip k.settings.max_attempts o)
