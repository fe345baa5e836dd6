-- ===== src/Worker/Sends.antt =====
-- How many notifications a job's handling sends: a bound that holds however the calls end.
use notification_service_kaf.Prelude.{
  ℕ, zero, suc, ◌+◌, ◌-◌, ◌≤◌, ◌≡◌, refl, ap, String, Option, none, some, Bool, true, false, List,
  length, arith, leb, str_eq, if◌then◌else◌,
}
use notification_service_kaf.Schemas.{
  NotificationJob, NotificationDelivery, Json, truthy, email, push, ws, value,
}
use notification_service_kaf.Deliveries.{find_row}
use notification_service_kaf.Runtime.{Exc, World, Worker, Outcome, done, refused, lost, db}
use notification_service_kaf.Runtime.Monad.{
  Action, Result, Nothing, or_raise, continue, call, ask, answer, tick,
}
use notification_service_kaf.Runtime.Views.{continue-adds, recover-adds}
use notification_service_kaf.Worker.Repo.{get_by_job_id}
use notification_service_kaf.Worker.Auth.{UserContacts}
use notification_service_kaf.Worker.Senders.{send_email, send_push, send_ws}
use notification_service_kaf.Worker.Dlq.{publish_job}
use notification_service_kaf.Worker.Status.{mark_sent}
use notification_service_kaf.Worker.Timing.{attempts_of}
use notification_service_kaf.Worker.Retry.{
  rounds, try_send, on_failure, after_failure, attempt_with_retries,
}
use notification_service_kaf.Worker.Processor.{
  attempt_send, dispatch, handle_job, deliver_claimed, claim_and_deliver, unless_expired,
  unless_skipped, should_skip, normalize_channel, member,
}
use notification_service_kaf.Worker.Quiet.{
  Quiet, sent_of, sleep-Quiet, get_template-Quiet, try_claim_job-Quiet, publish_job-Quiet,
  mark_sent-Quiet, mark_failure-Quiet, handle_expiration-Quiet, wait_send_after-Quiet,
  get_user_contacts-Quiet,
}

-- The number of notifications sent so far.
abbrev pub sends : World → ℕ
sends w = length w.sent

-- `m` sends at most n notifications, however it ends.
abbrev pub Sends : {A : Type 0} → ℕ → Action A → Type 0
Sends n m = (w : World) → sends (m w).1 ≤ sends w + n

Quiet-Sends : {A : Type 0} (k : Worker) (m : Action A) (n : ℕ) → Quiet k m → Sends n m
Quiet-Sends k m n h w = omega (arith, ap length (h w))

if-Sends :
    {A : Type 0} (b : Bool) (m m' : Action A) (n : ℕ)
    → Sends n m
    → Sends n m'
    → Sends n (if b then m else m')
if-Sends true m m' n h i = h
if-Sends false m m' n h i = i

-- A quiet coroutine before one that sends.
quiet_then :
    {A B : Type 0} (f : A → Action B) (u : World) (p : Result A × World) (n : ℕ)
    → sent_of p.1 ≡ sent_of u
    → ((a : A) → Sends n (f a))
    → sends (continue f p).1 ≤ sends u + n
quiet_then f u p n e h =
    continue-adds sends f p (sends u) n (sends u + n) (omega arith) (omega (arith, ap length e)) h

module _ (k : Worker) (job : NotificationJob) where
  send_email-Sends : (to : Json) (s b : String) → Sends 1 (send_email k to s b)
  unfolding send_email call
  send_email-Sends to s b w = ground arith

  send_push-Sends : (to : Json) (s b : String) → Sends 1 (send_push to s b)
  unfolding send_push
  send_push-Sends to s b w = ground arith

  send_ws-Sends : (to : Json) (s b : String) → Sends 1 (send_ws to s b)
  unfolding send_ws
  send_ws-Sends to s b w = ground arith

  dispatch-Sends : (ch : String) (c : UserContacts) (s b : String) → Sends 1 (dispatch k ch c s b)
  dispatch-Sends ch c s b =
      if-Sends (str_eq ch (value email)) _ _ 1
        (if-Sends (truthy c.email) _ _ 1 (send_email-Sends _ s b) (λ w. omega arith))
        (if-Sends (str_eq ch (value push)) _ _ 1
          (if-Sends (truthy c.push_token) _ _ 1 (send_push-Sends _ s b) (λ w. omega arith))
          (if-Sends (str_eq ch (value ws)) _ _ 1
            (if-Sends (truthy c.ws_session_id) _ _ 1 (send_ws-Sends _ s b) (λ w. omega arith))
            (λ w. omega arith)))

  or_raise-Quiet : {A : Type 0} (o : Option A) (e : Exc) → Quiet k (or_raise o e)
  or_raise-Quiet none e w = refl
  or_raise-Quiet (some a) e w = refl

  attempt_send-Sends : Sends 1 (attempt_send k job)
  unfolding attempt_send
  attempt_send-Sends w = quiet_then _ w _ 1 (get_user_contacts-Quiet k _ w) λ c w₁.
      quiet_then _ w₁ _ 1 (get_template-Quiet k _ _ _ w₁) λ o w₂.
        quiet_then _ w₂ _ 1 (or_raise-Quiet o _ w₂) λ t w₃. quiet_then _ w₃ _ 1 refl λ s w₄.
          quiet_then _ w₄ _ 1 refl
            λ b. dispatch-Sends (normalize_channel (member job.channel)) c s b

  module _ (limit : ℕ) (delays : List ℕ) (fn : NotificationJob → Action Nothing)
      (once : Sends 1 (fn job)) where
    try_send-Sends : (n : ℕ) → Sends 1 (try_send k job limit delays fn n)
    try_send-Sends n w =
        continue-adds sends _ (fn job w) (sends w + 1) 0 (sends w + 1) (omega arith) (once w)
          (λ u. Quiet-Sends k (mark_sent k job n) 0 (mark_sent-Quiet k job n))

    after_failure-Sends :
        (n : ℕ) (again : Action Nothing) (e : String) (b : Bool) (left : ℕ)
        → Sends left again
        → Sends left (after_failure k job limit delays fn n again e b)
    after_failure-Sends n again e true left h w =
        Quiet-Sends k (publish_job k job (some e)) left (publish_job-Quiet k job (some e)) w
    after_failure-Sends n again e false left h w = quiet_then _ w _ left (sleep-Quiet k _ w) λ u. h

    on_failure-Sends :
        (n : ℕ) (again : Action Nothing) (exc : Exc) (left : ℕ)
        → Sends left again
        → Sends left (on_failure k job limit delays fn n again exc)
    on_failure-Sends n again exc left h w =
        quiet_then _ w _ left (mark_failure-Quiet k job n _ (leb limit n) w)
          λ u. after_failure-Sends n again _ (leb limit n) left h

    -- The loop sends at most one notification for each attempt that is left.
    pub rounds-Sends : (left n : ℕ) → Sends left (rounds k job limit delays fn left n)
    unfolding rounds
    rounds-Sends zero n w = omega arith
    rounds-Sends (suc left) n w =
        recover-adds sends _ (try_send k job limit delays fn (suc n) w) (sends w + 1) left
          (sends w + suc left) (omega arith) (try_send-Sends (suc n) w)
          (λ exc. on_failure-Sends (suc n) _ exc left (rounds-Sends left (suc n)))

  left_of : Option NotificationDelivery → ℕ
  left_of o = k.settings.max_attempts - attempts_of o

  deliver_claimed-Sends :
      (o : Option NotificationDelivery) (b : Bool) → Sends (left_of o) (deliver_claimed k job o b)
  unfolding attempt_with_retries left_of
  deliver_claimed-Sends o false w = omega arith
  deliver_claimed-Sends o true w =
      quiet_then _ w _ (k.settings.max_attempts - attempts_of o) refl
        λ delays. rounds-Sends _ delays (attempt_send k) attempt_send-Sends _ _

  claim_and_deliver-Sends :
      (o : Option NotificationDelivery) → Sends (left_of o) (claim_and_deliver k job o)
  claim_and_deliver-Sends o w = quiet_then _ w _ (left_of o) (wait_send_after-Quiet k job w) λ u w₁.
      quiet_then _ w₁ _ (left_of o) (try_claim_job-Quiet k _ _ _ w₁) (deliver_claimed-Sends o)

  unless_expired-Sends :
      (o : Option NotificationDelivery) (b : Bool) → Sends (left_of o) (unless_expired k job o b)
  unless_expired-Sends o true w = omega arith
  unless_expired-Sends o false w = claim_and_deliver-Sends o w

  unless_skipped-Sends :
      (o : Option NotificationDelivery) (b : Bool) → Sends (left_of o) (unless_skipped k job o b)
  unless_skipped-Sends o true w = omega arith
  unless_skipped-Sends o false w =
      quiet_then _ w _ (left_of o) (handle_expiration-Quiet k job o w) (unless_expired-Sends o)

  -- Handling a job sends at most as many notifications as it has attempts left by its row, whatever
  -- the calls of the services do.
  pub handle_job-sends-le :
      (w : World)
      → sends (handle_job k job w).1
        ≤ sends w + (k.settings.max_attempts - attempts_of (find_row job.job_id w.deliveries))
  unfolding handle_job get_by_job_id ask continue left_of
  handle_job-sends-le w = go (k.env.outcome db w.calls)
    where
      existing : Option NotificationDelivery
      existing = find_row job.job_id w.deliveries

      rest : Option NotificationDelivery → Action Nothing
      rest o = unless_skipped k job o (should_skip k.settings.max_attempts o)

      go :
          (o : Outcome)
          → sends (continue rest (answer o (tick k w) (existing, tick k w))).1
            ≤ sends w + (k.settings.max_attempts - attempts_of existing)
      go done =
          unless_skipped-Sends existing (should_skip k.settings.max_attempts existing) (tick k w)
      go (refused e) = omega arith
      go (lost e) = omega arith
