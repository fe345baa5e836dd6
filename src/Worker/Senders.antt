-- ===== src/Worker/Senders.antt =====
-- worker/senders: EmailSender, and the stubs PushSender and WsSender, which log only.
use notification_service_kaf.Prelude.{String, ◌∷◌, if◌then◌else◌}
use notification_service_kaf.Schemas.{Json, truthy}
use notification_service_kaf.Runtime.{
  World, Worker, Notification, by_email, by_push, by_ws, smtp, value_error,
}
use notification_service_kaf.Runtime.Monad.{Action, Nothing, ok, call, raise}

abbrev pub deliver : Notification → World → World
deliver n w = record w { sent = n ∷ w.sent }

unfoldable pub send_email : Worker → Json → String → String → Action Nothing
send_email k to subject body = call k smtp (
    deliver (
      by_email (record {
        hostname = k.settings.smtp_host;
        port = k.settings.smtp_port;
        sender = k.settings.smtp_from;
        to = to;
        subject = subject;
        body = body;
      })))

abbrev log_delivery : Notification → Action Nothing
log_delivery n w = (ok tt, deliver n w)

unfoldable pub send_push : Json → String → String → Action Nothing
send_push to subject body =
    if truthy to
    then log_delivery (by_push to subject body)
    else raise (value_error "Recipient push_token is empty")

unfoldable pub send_ws : Json → String → String → Action Nothing
send_ws to subject body =
    if truthy to
    then log_delivery (by_ws to subject body)
    else raise (value_error "Recipient ws_session_id is empty")
