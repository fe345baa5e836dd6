-- ===== src/Worker/Attempt.antt =====
-- One attempt to send a job's notification: attempt_send (processor/job_processor.py) where no call
-- of it is cancelled.
use notification_service_kaf.Prelude.{
  ℕ, ◌≤◌, ◌<◌, ◌≡◌, ◌∙◌, refl, String, Option, none, some, Bool, true, false, arith, str_eq,
  if◌then◌else◌,
}
use notification_service_kaf.Schemas.{
  NotificationJob, Json, Members, null, bool, number, text, array, object, truthy, email, push, ws,
  value,
}
use notification_service_kaf.Runtime.{
  IsCaught, Exc, is_exception, World, Worker, Outcome, Notification, done, refused, lost, smtp, db,
  HttpReply, failed, answered,
}
use notification_service_kaf.Runtime.Monad.{
  IsUncancelled, Action, Nothing, Result, ok, raised, or_raise, continue, tick, call, finish, raise,
}
use notification_service_kaf.Format.{format}
use notification_service_kaf.Worker.Repo.{get_template}
use notification_service_kaf.Worker.Reliable.{ask-done}
use notification_service_kaf.Format.Raises.{FormatsCalmly, format-IsUncancelled}
use notification_service_kaf.Worker.Auth.{
  UserContacts, get_user_contacts, read_reply, contacts_of, is_unset,
}
use notification_service_kaf.Worker.Senders.{send_email, send_push, send_ws, deliver}
use notification_service_kaf.Worker.Processor.{
  attempt_send, dispatch, missing_var, normalize_channel, member,
}
use notification_service_kaf.Worker.Sends.{sends}

-- A part of an attempt that was not cancelled, buried nothing and sent nothing.
abbrev pub IsQuiet : {A : Type 0} → World → Result A × World → Type 0
IsQuiet w p = IsUncancelled p.0 × (p.1.dlq ≡ w.dlq) × (p.1.sent ≡ w.sent)

-- An attempt that was not cancelled and buried nothing; it sent a notification if it returned.
pub record IsAttempt (w : World) (p : Result Nothing × World) : Type 0 where
  pub uncancelled : IsUncancelled p.0
  pub same_dlq : p.1.dlq ≡ w.dlq
  pub kept : sends w ≤ sends p.1
  pub delivered : p.0 ≡ ok tt → sends w < sends p.1

quiet_then :
    {A : Type 0} (f : A → Action Nothing) (w : World) (p : Result A × World)
    → IsQuiet w p
    → ((a : A) (v : World) → IsAttempt v (f a v))
    → IsAttempt w (continue f p)
unfolding continue
quiet_then f w (ok a, v) (u, d, s) h =
    let at = h a v in
    record {
      uncancelled = at.uncancelled;
      same_dlq = at.same_dlq ∙ d;
      kept = ground arith;
      delivered = λ e. ground (arith, at.delivered e);
    }
quiet_then f w (raised x, v) (u, d, s) h = record {
  uncancelled = u;
  same_dlq = d;
  kept = ground arith;
  delivered = λ e. cc;
}

abbrev pub CaughtReply : HttpReply → Type 0
CaughtReply (failed e) = is_exception e ≡ true
CaughtReply (answered body) = Unit {0}

mailed :
    (o : Outcome) (w : World) (n : Notification)
    → IsCaught o
    → (v : World) → v.sent ≡ w.sent
    → v.dlq ≡ w.dlq
    → IsAttempt w (finish o v (deliver n v))
mailed done w n h v s d = record {
  uncancelled = tt;
  same_dlq = d;
  kept = ground arith;
  delivered = λ e. ground arith;
}
mailed (refused x) w n h v s d = record {
  uncancelled = h;
  same_dlq = d;
  kept = ground arith;
  delivered = λ e. cc;
}
mailed (lost x) w n h v s d = record {
  uncancelled = h;
  same_dlq = d;
  kept = ground arith;
  delivered = λ e. cc;
}

if_both :
    {A : Type 0} (P : Result A × World → Type 0) (b : Bool) (m n : Action A) (w : World)
    → P (m w)
    → P (n w)
    → P ((if b then m else n) w)
if_both P true m n w p q = p
if_both P false m n w p q = q

raised-IsAttempt : (x : Exc) (w : World) → is_exception x ≡ true → IsAttempt w (raised x, w)
raised-IsAttempt x w h = record {
  uncancelled = h;
  same_dlq = refl;
  kept = omega arith;
  delivered = λ e. cc;
}

or_raise-IsQuiet :
    {A : Type 0} (o : Option A) (x : Exc) (w : World)
    → is_exception x ≡ true
    → IsQuiet w (or_raise o x w)
or_raise-IsQuiet none x w h = (h, refl, refl)
or_raise-IsQuiet (some a) x w h = (tt, refl, refl)

renamed : (r : Result String) → IsUncancelled r → IsUncancelled (missing_var r)
renamed (ok s) h = tt
renamed (raised e) h = ground arith

-- Neither SMTP nor the Auth service nor a template cancels an attempt.
pub record IsUncut (k : Worker) : Type 0 where
  pub smtp_caught : (n : ℕ) → IsCaught (k.env.outcome smtp n)
  pub auth_caught : (n : ℕ) → CaughtReply (k.env.auth_reply n)
  pub formats_calmly : FormatsCalmly k.libs

module _ (k : Worker) (uncut : IsUncut k) (db_done : (n : ℕ) → k.env.outcome db n ≡ done) where
  contacts_of-IsQuiet : (user : ℕ) (body : Json) (w : World) → IsQuiet w (contacts_of user body w)
  contacts_of-IsQuiet user (object ms) w = (tt, refl, refl)
  contacts_of-IsQuiet user null w = (refl, refl, refl)
  contacts_of-IsQuiet user (bool b) w = (refl, refl, refl)
  contacts_of-IsQuiet user (number s z) w = (refl, refl, refl)
  contacts_of-IsQuiet user (text s) w = (refl, refl, refl)
  contacts_of-IsQuiet user (array xs) w = (refl, refl, refl)

  read_reply-IsQuiet :
      (user : ℕ) (r : HttpReply) (w : World) → CaughtReply r → IsQuiet w (read_reply k user r w)
  read_reply-IsQuiet user (failed e) w h = rw h (tt, refl, refl)
  read_reply-IsQuiet user (answered body) w h = contacts_of-IsQuiet user body w

  contacts-IsQuiet : (user : ℕ) (w : World) → IsQuiet w (get_user_contacts k user w)
  unfolding get_user_contacts
  contacts-IsQuiet user w =
      if_both (IsQuiet w) (is_unset k.settings.auth_base_url) _ _ w (tt, refl, refl)
        (if_both (IsQuiet w) k.has_http _ _ w
          (read_reply-IsQuiet user (k.env.auth_reply w.calls) (tick k w)
            (uncut.auth_caught w.calls))
          (tt, refl, refl))

  formatted-IsUncancelled :
      (s : String) (vars : Members) → IsUncancelled (missing_var (format k.libs s vars))
  formatted-IsUncancelled s vars =
      renamed (format k.libs s vars) (format-IsUncancelled k.libs s vars uncut.formats_calmly)

  template-IsQuiet :
      (job : NotificationJob) (w : World)
      → IsQuiet w
          (get_template k job.template_code job.locale (normalize_channel (member job.channel)) w)
  unfolding get_template
  template-IsQuiet job w = rw (ask-done k db _ w (db_done w.calls)) (tt, refl, refl)

  send_email-IsAttempt :
      (to : Json) (s b : String) (w : World) → IsAttempt w (send_email k to s b w)
  unfolding send_email call
  send_email-IsAttempt to s b w =
      mailed (k.env.outcome smtp w.calls) w _ (uncut.smtp_caught w.calls) (tick k w) refl refl

  logged-IsAttempt :
      (b : Bool) (n : Notification) (x : Exc) (w : World)
      → is_exception x ≡ true
      → IsAttempt w ((if b then (λ v. (ok tt, deliver n v)) else raise x) w)
  logged-IsAttempt true n x w h = mailed done w n tt w refl refl
  logged-IsAttempt false n x w h = raised-IsAttempt x w h

  dispatch-IsAttempt :
      (ch : String) (c : UserContacts) (s b : String) (w : World)
      → IsAttempt w (dispatch k ch c s b w)
  unfolding send_push send_ws
  dispatch-IsAttempt ch c s b w =
      if_both (IsAttempt w) (str_eq ch (value email)) _ _ w
        (if_both (IsAttempt w) (truthy c.email) _ _ w (send_email-IsAttempt c.email s b w)
          (raised-IsAttempt _ w refl))
        (if_both (IsAttempt w) (str_eq ch (value push)) _ _ w
          (if_both (IsAttempt w) (truthy c.push_token) _ _ w
            (logged-IsAttempt (truthy c.push_token) _ _ w refl) (raised-IsAttempt _ w refl))
          (if_both (IsAttempt w) (str_eq ch (value ws)) _ _ w
            (if_both (IsAttempt w) (truthy c.ws_session_id) _ _ w
              (logged-IsAttempt (truthy c.ws_session_id) _ _ w refl) (raised-IsAttempt _ w refl))
            (raised-IsAttempt _ w refl)))

  -- An attempt whose calls are not cancelled, over a database that works, is one that the retry loop
  -- expects.
  pub attempt_send-IsAttempt :
      (job : NotificationJob) (w : World) → IsAttempt w (attempt_send k job w)
  unfolding attempt_send
  attempt_send-IsAttempt job w = quiet_then _ w _ (contacts-IsQuiet job.user_id w) λ c w₁.
      quiet_then _ w₁ _ (template-IsQuiet job w₁) λ o w₂.
        quiet_then _ w₂ _ (or_raise-IsQuiet o _ w₂ refl) λ t w₃.
          quiet_then _ w₃ _ (formatted-IsUncancelled _ job.job_data, refl, refl)
            λ s w₄.
              quiet_then _ w₄ _ (formatted-IsUncancelled t.body job.job_data, refl, refl)
                λ b w₅. dispatch-IsAttempt (normalize_channel (member job.channel)) c s b w₅
