-- ===== src/Worker/Quiet.antt =====
-- The operations of the worker that send nothing.
use notification_service_kaf.Prelude.{
  ℕ, ◌-◌, ◌≡◌, refl, String, Option, none, some, Bool, true, false, List, leb, min,
}
use notification_service_kaf.Schemas.{
  NotificationJob, NotificationDelivery, Json, null, bool, number, text, array, object,
}
use notification_service_kaf.Deliveries.{Saved}
use notification_service_kaf.Runtime.{
  World, Worker, Notification, HttpReply, failed, answered, is_exception,
}
use notification_service_kaf.Runtime.Monad.{Action, sleep}
use notification_service_kaf.Runtime.Views.{continue-view, if-view, call-view, ask-view}
use notification_service_kaf.Worker.Repo.{
  get_by_job_id, try_claim_job, claim_by_update, save_status, get_template, seconds,
}
use notification_service_kaf.Worker.Auth.{get_user_contacts, read_reply, contacts_of, is_unset}
use notification_service_kaf.Worker.Dlq.{publish_job, send_dlq}
use notification_service_kaf.Worker.Status.{mark_sent, mark_failure, mark_expired}
use notification_service_kaf.Worker.Timing.{
  handle_expiration_if_needed, expire_at, wait_send_after_if_needed, wait_until,
}

abbrev pub sent_of : World → List Notification
sent_of w = w.sent

module _ (k : Worker) where
  -- `m` sends nothing, however it ends.
  abbrev pub Quiet : {A : Type 0} → Action A → Type 0
  Quiet m = (w : World) → sent_of (m w).1 ≡ sent_of w

  pub save_status-Quiet : (s : Saved) → Quiet (save_status k s)
  unfolding save_status
  save_status-Quiet s w = call-view sent_of k (λ v. refl) _ _ w (λ v. refl)

  pub sleep-Quiet : (d : ℕ) → Quiet (sleep k d)
  unfolding sleep
  sleep-Quiet d w = call-view sent_of k (λ v. refl) _ _ w (λ v. refl)

  pub get_by_job_id-Quiet : (j : ℕ) → Quiet (get_by_job_id k j)
  unfolding get_by_job_id
  get_by_job_id-Quiet j w = ask-view sent_of k (λ v. refl) _ _ w (λ v. refl)

  pub get_template-Quiet : (c l ch : String) → Quiet (get_template k c l ch)
  unfolding get_template
  get_template-Quiet c l ch w = ask-view sent_of k (λ v. refl) _ _ w (λ v. refl)

  claim_by_update-Quiet : (j now : ℕ) (b : Bool) → Quiet (claim_by_update k j now b)
  claim_by_update-Quiet j now true w = refl
  claim_by_update-Quiet j now false w = ask-view sent_of k (λ v. refl) _ _ w (λ v. refl)

  pub try_claim_job-Quiet : (j user : ℕ) (ch : String) → Quiet (try_claim_job k j user ch)
  unfolding try_claim_job
  try_claim_job-Quiet j user ch w = continue-view sent_of _ w _ refl λ now w'.
      continue-view sent_of _ w' _ (ask-view sent_of k (λ v. refl) _ _ w' (λ v. refl))
        (claim_by_update-Quiet j now)

  pub publish_job-Quiet : (j : NotificationJob) (e : Option String) → Quiet (publish_job k j e)
  unfolding publish_job send_dlq
  publish_job-Quiet j e w =
      continue-view sent_of _ w _ refl λ now w'. call-view sent_of k (λ v. refl) _ _ w' (λ v. refl)

  module _ (job : NotificationJob) where
    pub mark_sent-Quiet : (n : ℕ) → Quiet (mark_sent k job n)
    unfolding mark_sent
    mark_sent-Quiet n w = continue-view sent_of _ w _ refl λ now. save_status-Quiet _

    pub mark_failure-Quiet : (n : ℕ) (e : String) (b : Bool) → Quiet (mark_failure k job n e b)
    unfolding mark_failure
    mark_failure-Quiet n e b = save_status-Quiet _

    pub mark_expired-Quiet : (n : ℕ) → Quiet (mark_expired k job n)
    unfolding mark_expired
    mark_expired-Quiet n = save_status-Quiet _

    expire_at-Quiet :
        (o : Option NotificationDelivery) (e : Option ℕ) (now : ℕ) → Quiet (expire_at k job o e now)
    expire_at-Quiet o none now w = refl
    expire_at-Quiet o (some e) now w =
        if-view sent_of (leb now e) w _ _ refl
          (continue-view sent_of _ w _ (mark_expired-Quiet _ w) λ u v. refl)

    pub handle_expiration-Quiet :
        (o : Option NotificationDelivery) → Quiet (handle_expiration_if_needed k job o)
    unfolding handle_expiration_if_needed
    handle_expiration-Quiet o w =
        continue-view sent_of _ w _ refl (expire_at-Quiet o job.expires_at)

    wait_until-Quiet : (e : Option ℕ) (now : ℕ) → Quiet (wait_until k e now)
    wait_until-Quiet none now w = refl
    wait_until-Quiet (some target) now w = if-view sent_of (leb target now) w _ _ refl (
        if-view sent_of (leb (min (target - now) (seconds k.settings.max_send_delay_seconds)) 0) w _
          _ refl (sleep-Quiet _ w))

    pub wait_send_after-Quiet : Quiet (wait_send_after_if_needed k job)
    unfolding wait_send_after_if_needed
    wait_send_after-Quiet w = continue-view sent_of _ w _ refl (wait_until-Quiet job.send_after)

  contacts_of-Quiet : (user : ℕ) (body : Json) → Quiet (contacts_of user body)
  contacts_of-Quiet user (object ms) w = refl
  contacts_of-Quiet user null w = refl
  contacts_of-Quiet user (bool b) w = refl
  contacts_of-Quiet user (number s z) w = refl
  contacts_of-Quiet user (text s) w = refl
  contacts_of-Quiet user (array xs) w = refl

  read_reply-Quiet : (user : ℕ) (r : HttpReply) → Quiet (read_reply k user r)
  read_reply-Quiet user (failed e) w = if-view sent_of (is_exception e) w _ _ refl refl
  read_reply-Quiet user (answered body) w = contacts_of-Quiet user body w

  pub get_user_contacts-Quiet : (user : ℕ) → Quiet (get_user_contacts k user)
  unfolding get_user_contacts
  get_user_contacts-Quiet user w =
      if-view sent_of (is_unset k.settings.auth_base_url) w _ _ refl
        (if-view sent_of k.has_http w _ _ (read_reply-Quiet user (k.env.auth_reply w.calls) _) refl)
