-- ===== src/Worker/Returns/Loop.antt =====
-- Why the retry loop returns.
use notification_service_kaf.Prelude.{
  ℕ, zero, suc, ◌+◌, ◌≤◌, ◌<◌, ◌≡◌, inl, inr, refl, ap, ◌∙◌, String, List, Option, none, some,
  arith, leb, length, str_eq, Bool-cases, subst,
}
use notification_service_kaf.Schemas.{
  NotificationJob, NotificationDelivery, failed, retrying, email, push, ws, value, truthy,
}
use notification_service_kaf.Deliveries.{Saved, find_row}
use notification_service_kaf.Deliveries.Frame.{find_row-upsert, saved_over-fields}
use notification_service_kaf.Runtime.{Exc, exc_text, World, Worker, db, smtp, kafka, timer}
use notification_service_kaf.Runtime.Monad.{
  Action, Nothing, Result, ok, raised, tick, sleep, continue, or_raise,
}
use notification_service_kaf.Runtime.Ensures.{
  Ensures, Ensures-if, Ensures-recover, Ensures-continue, Ensures-call, Ensures-weaken,
}
use notification_service_kaf.Runtime.Trace.{Steps-continue}
use notification_service_kaf.Worker.Repo.{save_status, write_status}
use notification_service_kaf.Worker.Dlq.{publish_job, send_dlq}
use notification_service_kaf.Worker.Status.{mark_sent, mark_failure, sent_values, unsent_values}
use notification_service_kaf.Worker.Senders.{send_email, send_push, send_ws}
use notification_service_kaf.Worker.Auth.{UserContacts, get_user_contacts}
use notification_service_kaf.Worker.Retry.{rounds, try_send, on_failure}
use notification_service_kaf.Worker.Processor.{attempt_send, dispatch, normalize_channel, member}
use notification_service_kaf.Worker.Quiet.{get_user_contacts-Quiet, get_template-Quiet, sent_of}
use notification_service_kaf.Worker.Sends.{sends}
use notification_service_kaf.Worker.Step.Handle.{attempt_send-Does}
use notification_service_kaf.Worker.Step.Runs.{mark_sent-Does}
use notification_service_kaf.Worker.Returns.{Ending, was_sent, was_buried, Steps-sends}

module _ (k : Worker) (job : NotificationJob) where
  unchanged :
      {A : Type 0} (u : World) (p : Result A × World)
      → sent_of p.1 ≡ sent_of u
      → Ensures (λ a v. sent_of v ≡ sent_of u) p
  unchanged u (ok a, w) e = e
  unchanged u (raised x, w) e = tt

  or_raise_same :
      {A : Type 0} (o : Option A) (x : Exc) (u : World)
      → Ensures (λ a v. sent_of v ≡ sent_of u) (or_raise o x u)
  or_raise_same none x u = tt
  or_raise_same (some a) x u = refl

  dispatch-sends :
      (ch : String) (c : UserContacts) (s b : String) (w : World)
      → Ensures (λ a v. sends w < sends v) (dispatch k ch c s b w)
  unfolding send_email send_push send_ws
  dispatch-sends ch c s b w =
      let Q = λ (a : Nothing) (v : World). sends w < sends v in
      Ensures-if Q (str_eq ch (value email)) w _ _
        (λ e.
          Ensures-if Q (truthy c.email) w _ _ (λ t. Ensures-call Q k smtp _ w (omega arith))
            (λ t. tt))
        (λ e.
          Ensures-if Q (str_eq ch (value push)) w _ _
            (λ e'.
              Ensures-if Q (truthy c.push_token) w _ _
                (λ t. Ensures-if Q (truthy c.push_token) w _ _ (λ t'. omega arith) (λ t'. tt))
                (λ t. tt))
            (λ e'.
              Ensures-if Q (str_eq ch (value ws)) w _ _
                (λ f.
                  Ensures-if Q (truthy c.ws_session_id) w _ _
                    (λ t.
                      Ensures-if Q (truthy c.ws_session_id) w _ _ (λ t'. omega arith) (λ t'. tt))
                    (λ t. tt))
                (λ f. tt)))

  attempt_send-sends : (w : World) → Ensures (λ a v. sends w < sends v) (attempt_send k job w)
  unfolding attempt_send
  attempt_send-sends w =
      let Q = λ (a : Nothing) (v : World). sends w < sends v in
      Ensures-continue (λ a v. sent_of v ≡ sent_of w) Q _ (get_user_contacts k job.user_id w)
        (unchanged w _ (get_user_contacts-Quiet k job.user_id w))
        λ c w₁ e₁.
          Ensures-continue (λ a v. sent_of v ≡ sent_of w₁) Q _ _
            (unchanged w₁ _ (get_template-Quiet k _ _ _ w₁))
            λ o w₂ e₂.
              Ensures-continue (λ a v. sent_of v ≡ sent_of w₂) Q _ _ (or_raise_same o _ w₂)
                λ t w₃ e₃.
                  Ensures-continue (λ a v. sent_of v ≡ sent_of w₃) Q _ _ (unchanged w₃ _ refl)
                    λ s w₄ e₄.
                      Ensures-continue (λ a v. sent_of v ≡ sent_of w₄) Q _ _ (unchanged w₄ _ refl)
                        λ b w₅ e₅.
                          Ensures-weaken (λ a v. sends w₅ < sends v) Q _
                            (λ a v h. omega (arith, h, ap length (e₅ ∙ e₄ ∙ e₃ ∙ e₂ ∙ e₁)))
                            (dispatch-sends (normalize_channel (member job.channel)) c s b w₅)

  -- The row that save_status leaves.
  abbrev pub IsSavedIn : Saved → World → Type 0
  IsSavedIn s v =
      (r : NotificationDelivery) × (find_row s.job_id v.deliveries ≡ some r)
      × (r.status ≡ s.status)
      × (r.attempts ≡ s.attempts)
      × (r.error_message ≡ s.error_message)

  pub save_status-IsSavedIn :
      (s : Saved) (w : World)
      → Ensures
          (λ a v. IsSavedIn s v × (sends w ≤ sends v) × (w.clock ≤ v.clock))
          (save_status k s w)
  unfolding save_status
  save_status-IsSavedIn s w =
      let f =
        saved_over-fields s (k.env.db_now (tick k w).calls) (find_row s.job_id w.deliveries) in
      Ensures-call (λ a v. IsSavedIn s v × (sends w ≤ sends v) × (w.clock ≤ v.clock)) k db
        (write_status k s) w
        (
          (_, find_row-upsert s (k.env.db_now (tick k w).calls) w.deliveries, f.0, f.1, f.2),
          omega arith,
          omega arith,
        )

  module _ (delays : List ℕ) where
    abbrev limit : ℕ
    limit = k.settings.max_attempts

    -- An attempt after which mark_sent returns.
    sent-Ending :
        (n before : ℕ) (w : World)
        → before ≤ sends w
        → Ensures (λ a. Ending k job before) (try_send k job limit delays (attempt_send k) n w)
    unfolding mark_sent
    sent-Ending n before w h =
        Ensures-continue (λ a v. sends w < sends v) (λ a. Ending k job before) _ _
          (attempt_send-sends w)
          λ a v l.
            Ensures-continue (λ now u. sends v ≤ sends u) (λ a. Ending k job before) _ _
              (omega arith)
              λ now u m.
                Ensures-weaken _ (λ a. Ending k job before) _
                  (λ a x ((r, f, s, t, e), g, c). was_sent r f s (omega (arith, h, l, m, g)))
                  (save_status-IsSavedIn (sent_values job n now) u)

    buried-Ending :
        (before : ℕ) (error : String) (w : World)
        → IsSavedIn (unsent_values job failed limit error) w
        → Ensures (λ a. Ending k job before) (publish_job k job (some error) w)
    unfolding publish_job send_dlq continue
    buried-Ending before error w (r, f, s, t, e) =
        Ensures-call (λ a. Ending k job before) k kafka _ w
          (was_buried r error w.clock f s t e (inl refl))

    on_failure-Ending :
        (n before : ℕ) (again : Action Nothing) (e : Exc) (w : World)
        → n ≤ limit
        → before ≤ sends w
        → (n < limit
            → (v : World) → before ≤ sends v
            → Ensures (λ a. Ending k job before) (again v))
        → Ensures
            (λ a. Ending k job before)
            (on_failure k job limit delays (attempt_send k) n again e w)
    unfolding mark_failure sleep
    on_failure-Ending n before again e w l b h = elim (Bool-cases (leb limit n)) [
      | inl c ↦ rw c (
          let same : n ≡ limit = ground arith in
          Ensures-continue _ (λ a. Ending k job before) _ _
            (save_status-IsSavedIn (unsent_values job failed n (exc_text e)) w)
            λ a v (s, g, t).
              buried-Ending before (exc_text e) v
                (subst (λ m. IsSavedIn (unsent_values job failed m (exc_text e)) v) same s))
      | inr c ↦ rw c (
          Ensures-continue _ (λ a. Ending k job before) _ _
            (save_status-IsSavedIn (unsent_values job retrying n (exc_text e)) w)
            λ a v (s, g, t).
              Ensures-continue (λ a u. sends v ≤ sends u) (λ a. Ending k job before) _ _
                (Ensures-call (λ a u. sends v ≤ sends u) k timer _ v (omega arith))
                λ a u m. h (ground arith) u (omega (arith, b, g, m)))
    ]

    sends-try_send :
        (n before : ℕ) (w : World)
        → 0 < n
        → n ≤ limit
        → before ≤ sends w
        → before ≤ sends (try_send k job limit delays (attempt_send k) n w).1
    sends-try_send n before w p l b =
        let more =
          Steps-sends k job w (try_send k job limit delays (attempt_send k) n w).1
            (Steps-continue _ w _ (attempt_send-Does k job w) λ a. mark_sent-Does k job n p l) in
        omega (arith, b, more)

    -- The retry loop, from any attempt below the limit.
    pub rounds-Ending :
        (left n before : ℕ) (w : World)
        → suc left + n ≡ limit
        → before ≤ sends w
        → Ensures
            (λ a. Ending k job before)
            (rounds k job limit delays (attempt_send k) (suc left) n w)
    unfolding rounds
    rounds-Ending zero n before w e b =
        Ensures-recover (λ a. Ending k job before) _ _ (sent-Ending (suc n) before w b)
          λ x.
            on_failure-Ending (suc n) before _ x _ (omega arith)
              (sends-try_send (suc n) before w (omega arith) (omega arith) b)
              λ l. absurd (omega arith)
    rounds-Ending (suc left) n before w e b =
        Ensures-recover (λ a. Ending k job before) _ _ (sent-Ending (suc n) before w b)
          λ x.
            on_failure-Ending (suc n) before _ x _ (omega arith)
              (sends-try_send (suc n) before w (omega arith) (omega arith) b)
              λ l v. rounds-Ending left (suc n) before v (omega arith)
