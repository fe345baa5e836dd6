-- ===== src/Worker/Delivery.antt =====
-- A job from its record to its end, where the services work and nothing is cancelled.
use notification_service_kaf.Prelude.{
  ℕ, ◌≤◌, ◌<◌, ◌≡◌, refl, ap, sym, subst, ◌∙◌, List, Option, none, some, Bool, true, false, arith,
  le→leb,
}
use notification_service_kaf.Schemas.{NotificationJob, NotificationDelivery}
use notification_service_kaf.Deliveries.{find_row, claimable, is_open}
use notification_service_kaf.Config.{retry_delays_seconds}
use notification_service_kaf.Runtime.{World, Worker}
use notification_service_kaf.Runtime.Monad.{Result, ok, raised, Action, Nothing, continue, tick}
use notification_service_kaf.Worker.Repo.{stale_before, try_claim_job}
use notification_service_kaf.Worker.Timing.{
  attempts_of, expire_at, handle_expiration_if_needed, wait_send_after_if_needed,
}
use notification_service_kaf.Worker.Processor.{
  handle_job, should_skip, deliver_claimed, claim_and_deliver, attempt_send, normalize_channel,
  member,
}
use notification_service_kaf.Worker.Reliable.{IsReliable, get_by_job_id-done}
use notification_service_kaf.Worker.Pause.{wait_send_after-IsPause, due}
use notification_service_kaf.Worker.Claiming.{IsClaim, try_claim_job-new, try_claim_job-free}
use notification_service_kaf.Worker.Attempt.{IsUncut, attempt_send-IsAttempt}
use notification_service_kaf.Worker.Outcome.{
  IsSettled, IsSettled-from, attempt_with_retries-IsSettled,
}
use notification_service_kaf.Worker.Lost.{open_not_skipped, IsRecordOf, committed_after}
use notification_service_kaf.Worker.Step.Invariant.{handle_job-Frames}
use notification_service_kaf.Worker.Consumer.{Record, handle_and_commit}
use notification_service_kaf.Worker.Terminal.{handle_job-sent_finished}

-- The job has no row, or a row that may be claimed, with an attempt left.
abbrev pub IsPending : ℕ → ℕ → Option NotificationDelivery → Type 0
IsPending limit now none = 0 < limit
IsPending limit now (some r) = (claimable (stale_before now) r ≡ true) × (r.attempts < limit)

abbrev pub IsUnexpired : Option ℕ → ℕ → Type 0
IsUnexpired none now = Unit {0}
IsUnexpired (some e) now = now ≤ e

claimable-later :
    (a b : ℕ) (r : NotificationDelivery) → a ≤ b → claimable a r ≡ true → claimable b r ≡ true
claimable-later a b r h c = ground arith

pub IsPending-later :
    (limit a b : ℕ) (o : Option NotificationDelivery)
    → a ≤ b
    → IsPending limit a o
    → IsPending limit b o
IsPending-later limit a b none h p = p
IsPending-later limit a b (some r) h (c, l) =
    (claimable-later (stale_before a) (stale_before b) r (omega arith) c, l)

attempts_left :
    (limit now : ℕ) (o : Option NotificationDelivery)
    → IsPending limit now o
    → attempts_of o < limit
attempts_left limit now none p = p
attempts_left limit now (some r) p = p.1

claimable-is_open :
    (a : ℕ) (r : NotificationDelivery) → claimable a r ≡ true → is_open r.status ≡ true
claimable-is_open a r h = ground arith

not_skipped :
    (limit now : ℕ) (o : Option NotificationDelivery)
    → IsPending limit now o
    → should_skip limit o ≡ false
unfolding should_skip
not_skipped limit now none p = refl
not_skipped limit now (some r) p = open_not_skipped limit r (claimable-is_open _ r p.0)

pub returned_ok : (p : Result Nothing × World) → p.0 ≡ ok tt → p ≡ (ok tt, p.1)
returned_ok p e = rw (← e)

IsSettled-committed :
    (k : Worker) (job : NotificationJob) (limit : ℕ) (w : World) (q : Result Nothing × World)
    → IsSettled k job limit w q
    → (p : Result Nothing × World) → p.0 ≡ ok tt
    → p.1.deliveries ≡ q.1.deliveries
    → p.1.dlq ≡ q.1.dlq
    → p.1.sent ≡ q.1.sent
    → IsSettled k job limit w p
IsSettled-committed k job limit w q s p r d l e = record {
  returned = r;
  row = s.row;
  found = ap (find_row job.job_id) d ∙ s.found;
  bounded = s.bounded;
  ending = ground (arith, s.ending);
}

-- The world after the wait for send_after.
abbrev pub waited_world : Worker → NotificationJob → World → World
waited_world k job w = (wait_send_after_if_needed k job (tick k w)).1

-- In the world `start` nothing has happened but that the wait for send_after is over: send_after is
-- reached, or max_send_delay_seconds have passed since the start. The job is claimed and delivered
-- from that world, and settles.
pub record IsDelayed (k : Worker) (job : NotificationJob) (w start : World)
    (p : Result Nothing × World) : Type 0 where
  pub waited : due k job.send_after (tick k w).clock ≤ start.clock
  pub same_deliveries : start.deliveries ≡ w.deliveries
  pub same_dlq : start.dlq ≡ w.dlq
  pub same_sent : start.sent ≡ w.sent
  pub delivered :
      p
      ≡ continue
          (deliver_claimed k job (find_row job.job_id w.deliveries))
          (try_claim_job k job.job_id job.user_id (normalize_channel (member job.channel)) start)
  pub settled : IsSettled k job k.settings.max_attempts start p

module _ (k : Worker) (reliable : IsReliable k) (uncut : IsUncut k) (job : NotificationJob)
    (delays : List ℕ) (parsed : retry_delays_seconds k.libs k.settings ≡ ok delays) where
  not_expired :
      (o : Option NotificationDelivery) (e : Option ℕ) (u : World)
      → IsUnexpired e u.clock
      → expire_at k job o e u.clock u ≡ (ok false, u)
  not_expired o none u h = refl
  not_expired o (some e) u h = rw (le→leb u.clock e h)

  to_claim :
      (w : World)
      → IsPending k.settings.max_attempts w.clock (find_row job.job_id w.deliveries)
      → IsUnexpired job.expires_at (tick k w).clock
      → handle_job k job w ≡ claim_and_deliver k job (find_row job.job_id w.deliveries) (tick k w)
  unfolding handle_job handle_expiration_if_needed continue
  to_claim w p h = rw (
    get_by_job_id-done k reliable job.job_id w,
    not_skipped k.settings.max_attempts w.clock (find_row job.job_id w.deliveries) p,
    not_expired (find_row job.job_id w.deliveries) job.expires_at (tick k w) h,
  )

  deliver-IsSettled :
      (o : Option NotificationDelivery) (v : World) (r : NotificationDelivery)
      (p : Result Bool × World)
      → attempts_of o < k.settings.max_attempts
      → IsClaim job.job_id v true r p
      → IsSettled k job k.settings.max_attempts v (continue (deliver_claimed k job o) p)
  unfolding continue
  deliver-IsSettled o v r (ok true, u) l c = rw parsed (
      IsSettled-from k job k.settings.max_attempts v u _ c.same_dlq (ground (arith, c.same_sent)) (
        attempt_with_retries-IsSettled k job k.settings.max_attempts reliable delays
          (attempt_send k) (attempt_send-IsAttempt k uncut reliable.db_done job) (attempts_of o) u
          l))
  deliver-IsSettled o v r (ok false, u) l c = absurd (cc c.answered)
  deliver-IsSettled o v r (raised x, u) l c = absurd (cc c.answered)

  claimed-IsSettled :
      (o : Option NotificationDelivery) (v : World)
      → find_row job.job_id v.deliveries ≡ o
      → IsPending k.settings.max_attempts v.clock o
      → IsSettled k job k.settings.max_attempts v (
          continue
            (deliver_claimed k job o)
            (try_claim_job k job.job_id job.user_id (normalize_channel (member job.channel)) v))
  claimed-IsSettled none v e p =
      deliver-IsSettled none v _ _ p (try_claim_job-new k job.job_id job.user_id _ reliable v e)
  claimed-IsSettled (some r) v e (c, l) =
      deliver-IsSettled (some r) v _ _ l
        (try_claim_job-free k job.job_id job.user_id _ reliable r v e c)

  -- Where the services work, neither SMTP nor the Auth service nor a template cancels an attempt
  -- and the retry delays parse, handling a job that has not expired at its first test and has no
  -- row, or one that may be claimed with an attempt left, is to wait for send_after, and then to
  -- claim and deliver the job from the world behind this wait, which settles it. In that world
  -- send_after, or max_send_delay_seconds after the start if that is earlier, has been reached, and
  -- nothing has been sent, written or buried yet.
  pub handle_job-IsDelayed :
      (w : World)
      → IsPending k.settings.max_attempts w.clock (find_row job.job_id w.deliveries)
      → IsUnexpired job.expires_at (tick k w).clock
      → IsDelayed k job w (waited_world k job w) (handle_job k job w)
  unfolding continue
  handle_job-IsDelayed w p h =
      let o = find_row job.job_id w.deliveries in
      let pause = wait_send_after-IsPause k reliable job (tick k w) in
      let deliver : Nothing → Action Nothing = λ x v.
        continue (deliver_claimed k job o)
          (try_claim_job k job.job_id job.user_id (normalize_channel (member job.channel)) v) in
      rw (to_claim w p h) (
        subst (λ (q : Result Nothing × World). IsDelayed k job w q.1 (continue deliver q))
          (sym pause.ended)
          record {
            waited = pause.waited;
            same_deliveries = pause.same_deliveries;
            same_dlq = pause.same_dlq;
            same_sent = pause.same_sent;
            delivered = refl;
            settled =
                claimed-IsSettled o pause.after (ap (find_row job.job_id) pause.same_deliveries) (
                  IsPending-later k.settings.max_attempts w.clock pause.after.clock o
                    (omega (arith, pause.later)) p);
          })

  -- Where the services work, no call is cancelled and the retry delays parse, handling a job that has
  -- not expired and has no row, or one that may be claimed with an attempt left, settles the job.
  pub handle_job-IsSettled :
      (w : World)
      → IsPending k.settings.max_attempts w.clock (find_row job.job_id w.deliveries)
      → IsUnexpired job.expires_at (tick k w).clock
      → IsSettled k job k.settings.max_attempts w (handle_job k job w)
  handle_job-IsSettled w p h =
      let d = handle_job-IsDelayed w p h in
      IsSettled-from k job k.settings.max_attempts w (waited_world k job w) _ d.same_dlq
        (ground (arith, d.same_sent)) d.settled

  -- Where the database, Kafka and the timers work, neither SMTP nor the Auth service nor a template
  -- cancels an attempt and the retry delays parse, handling the record of a job that has not
  -- expired and has no row, or one that may be claimed with an attempt left, returns: the row of
  -- the job is then SENT with a notification sent and no new dead letter, or FAILED with exactly
  -- the maximum of attempts and one dead letter that carries the error of the row, and the offset
  -- of the record is committed.
  pub handle_and_commit-IsSettled :
      (msg : Record) (w : World)
      → IsRecordOf k job msg
      → w.consumer_open ≡ true
      → IsPending k.settings.max_attempts w.clock (find_row job.job_id w.deliveries)
      → IsUnexpired job.expires_at (tick k w).clock
      → IsSettled k job k.settings.max_attempts w (handle_and_commit k msg w)
        × ((handle_and_commit k msg w).1.committed ≡ some w.position)
  handle_and_commit-IsSettled msg w m o p h =
      let s = handle_job-IsSettled w p h in
      let v = (handle_job k job w).1 in
      let frames = handle_job-Frames k job w in
      rw (committed_after k job reliable msg m w v (returned_ok _ s.returned) (frames.4 ∙ o)) (
        IsSettled-committed k job k.settings.max_attempts w (handle_job k job w) s _ refl refl refl
            refl,
        ap some frames.3,
      )

  -- Where the services work, neither SMTP nor the Auth service nor a template cancels an attempt
  -- and the retry delays parse, a job that has not expired and has no row, or one that may be
  -- claimed with an attempt left, is not sent again once it was handled: handling it once more, by
  -- any worker in any surroundings, sends nothing.
  pub handle_job-settled_once :
      (again : Worker) (w : World)
      → IsPending k.settings.max_attempts w.clock (find_row job.job_id w.deliveries)
      → IsUnexpired job.expires_at (tick k w).clock
      → (handle_job again job (handle_job k job w).1).1.sent ≡ (handle_job k job w).1.sent
  handle_job-settled_once again w p h =
      let s = handle_job-IsSettled w p h in
      handle_job-sent_finished again job s.row (ground (arith, s.ending)) (handle_job k job w).1
        s.found
