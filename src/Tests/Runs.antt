-- ===== src/Tests/Runs.antt =====
-- Runs of the worker on concrete inputs.
use notification_service_kaf.Prelude.{ℕ, ◌≡◌, refl, List, [], ◌∷◌, map}
use notification_service_kaf.Text.{strip, split, lower}
use notification_service_kaf.Schemas.{NotificationStatus, sent, failed, NotificationDelivery}
use notification_service_kaf.Deliveries.{insert_claim, update_claim, upsert}
use notification_service_kaf.Config.{retry_delays_seconds, floats, stripped_words}
use notification_service_kaf.Format.{format, scan, has_special}
use notification_service_kaf.Runtime.{World, by_email}
use notification_service_kaf.Runtime.Monad.{call, ask, sleep, continue, recover, ok}
use notification_service_kaf.Worker.Repo.{get_by_job_id, try_claim_job, save_status, get_template}
use notification_service_kaf.Worker.Auth.{get_user_contacts, fake_contacts}
use notification_service_kaf.Worker.Senders.{send_email, send_push, send_ws}
use notification_service_kaf.Worker.Dlq.{send_dlq, publish_job}
use notification_service_kaf.Worker.Status.{
  mark_sent, mark_failure, mark_expired, ensure_channel, plain,
}
use notification_service_kaf.Worker.Timing.{handle_expiration_if_needed, wait_send_after_if_needed}
use notification_service_kaf.Worker.Retry.{get_retry_delay, rounds, attempt_with_retries}
use notification_service_kaf.Worker.Processor.{should_skip, attempt_send, handle_job}
use notification_service_kaf.Tests.Samples.{
  sample_worker, sample_world, sample_job, calm, sample_libs, sample_settings,
}

-- What the runs below unfold.
unfoldable pub handle : World → World
unfolding insert_claim update_claim upsert retry_delays_seconds floats stripped_words strip split
    format scan has_special call ask sleep continue recover get_by_job_id try_claim_job save_status
    get_template get_user_contacts fake_contacts send_email send_push send_ws send_dlq publish_job
    mark_sent mark_failure mark_expired handle_expiration_if_needed wait_send_after_if_needed
    get_retry_delay rounds attempt_with_retries should_skip attempt_send handle_job
handle w = (handle_job (sample_worker calm) sample_job w).1

abbrev statuses : World → List (NotificationStatus × ℕ)
statuses w = map (λ (r : NotificationDelivery). (r.status, r.attempts)) w.deliveries

happy_path : statuses (handle (sample_world [])) ≡ (sent, 1) ∷ []
unfolding handle
happy_path = refl

happy_path_sent :
    (handle (sample_world [])).sent
    ≡ by_email (record {
      hostname = "mailpit";
      port = 1025;
      sender = "noreply@example.com";
      to = notification_service_kaf.Schemas.text "user-id@example.com";
      subject = "Hi Ann";
      body = "{Dear} Ann";
    })
      ∷ []
unfolding handle
happy_path_sent = refl

ensure_channel_mixed_case : ensure_channel (plain " PuSh ") ≡ "push"
unfolding ensure_channel lower strip
ensure_channel_mixed_case = refl

ensure_channel_unknown : ensure_channel (plain "WTF") ≡ "email"
unfolding ensure_channel lower strip
ensure_channel_unknown = refl

delays_parse :
    retry_delays_seconds sample_libs sample_settings ≡ ok (1000000 ∷ 1000000 ∷ 1000000 ∷ [])
unfolding retry_delays_seconds floats strip split
delays_parse = refl
