-- ===== src/Worker/Step/Runs.antt =====
-- What the status writer, the claim and the retry loop do, on every branch and however they end, is
-- a sequence of steps of their job.
use notification_service_kaf.Prelude.{
  ◌+◌, ◌≤◌, ◌<◌, Bool-cases, ℕ, arith, inl, inr, ◌⊎◌, zero, suc, ◌≡◌, refl, String, Option, Bool,
  true, false, List, leb,
}
use notification_service_kaf.Schemas.{
  NotificationStatus, failed, retrying, expired, NotificationJob,
}
use notification_service_kaf.Deliveries.{Saved}
use notification_service_kaf.Runtime.{Exc, World, Worker}
use notification_service_kaf.Runtime.Monad.{Action, Nothing, sleep}
use notification_service_kaf.Runtime.Trace.{
  Steps, here, next, Steps-continue, Steps-recover, Steps-call, Steps-ask,
}
use notification_service_kaf.Worker.Repo.{
  get_by_job_id, try_claim_job, save_status, claim_by_update,
}
use notification_service_kaf.Worker.Dlq.{publish_job, send_dlq}
use notification_service_kaf.Worker.Status.{
  mark_sent, mark_failure, mark_expired, sent_values, unsent_values, failure_status, ensure_channel,
}
use notification_service_kaf.Worker.Retry.{rounds, on_failure, after_failure, try_send}
use notification_service_kaf.Worker.Step.{
  Step, passed, slept, inserted, updated, wrote, buried, IsReport, IsChannel, IsCounted,
}

module _ (k : Worker) (job : NotificationJob) where
  -- `m` takes steps of the job only.
  abbrev pub Does : {A : Type 0} → Action A → Type 0
  Does m = (w : World) → Steps (Step k job) w (m w).1

  save_status-Does : (s : Saved) → IsReport k job s → Does (save_status k s)
  unfolding save_status
  save_status-Does s h w = Steps-call k passed _ _ w (next here (wrote s _ h))

  sent-IsReport :
      (n now : ℕ) → 0 < n → n ≤ k.settings.max_attempts → IsReport k job (sent_values job n now)
  unfolding ensure_channel
  sent-IsReport n now p l = record {
    counted = (p, l);
    same_job = refl;
    consistent = ground arith;
    in_enum = (job.channel, refl);
  }

  unsent-IsReport :
      (status : NotificationStatus) (n : ℕ) (e : String)
      → ((status ≡ failed) ⊎ (status ≡ retrying)) ⊎ (status ≡ expired)
      → IsCounted k.settings.max_attempts status n
      → IsReport k job (unsent_values job status n e)
  unfolding ensure_channel
  unsent-IsReport status n e h c = record {
    counted = c;
    same_job = refl;
    consistent = ground arith;
    in_enum = (job.channel, refl);
  }

  pub mark_sent-Does : (n : ℕ) → 0 < n → n ≤ k.settings.max_attempts → Does (mark_sent k job n)
  unfolding mark_sent
  mark_sent-Does n p l w =
      Steps-continue _ w _ here λ now w'. save_status-Does _ (sent-IsReport n now p l) w'

  mark_failure-Does :
      (n : ℕ) (e : String) (b : Bool)
      → IsCounted k.settings.max_attempts (failure_status b) n
      → Does (mark_failure k job n e b)
  unfolding mark_failure
  mark_failure-Does n e true c = save_status-Does _ (unsent-IsReport failed n e (inl (inl refl)) c)
  mark_failure-Does n e false c =
      save_status-Does _ (unsent-IsReport retrying n e (inl (inr refl)) c)

  pub mark_expired-Does : (n : ℕ) → Does (mark_expired k job n)
  unfolding mark_expired
  mark_expired-Does n = save_status-Does _ (unsent-IsReport expired n _ (inr refl) tt)

  pub get_by_job_id-Does : (j : ℕ) → Does (get_by_job_id k j)
  unfolding get_by_job_id
  get_by_job_id-Does j w = Steps-ask k passed _ _ w here

  pub sleep-Does : (d : ℕ) → Does (sleep k d)
  unfolding sleep
  sleep-Does d w = Steps-call k passed _ _ w (next here (slept d _))

  pub publish_job-Does : (j : NotificationJob) (e : Option String) → Does (publish_job k j e)
  unfolding publish_job send_dlq
  publish_job-Does j e w =
      Steps-continue _ w _ here λ now w'. Steps-call k passed _ _ w' (next here (buried _ _))

  claim_by_update-Does : (now : ℕ) (b : Bool) → Does (claim_by_update k job.job_id now b)
  claim_by_update-Does now true w = here
  claim_by_update-Does now false w = Steps-ask k passed _ _ w (next here (updated now _ _))

  pub try_claim_job-Does :
      (channel : String) → IsChannel channel → Does (try_claim_job k job.job_id job.user_id channel)
  unfolding try_claim_job
  try_claim_job-Does channel c w = Steps-continue _ w _ here λ now w'.
      Steps-continue _ w' _ (Steps-ask k passed _ _ w' (next here (inserted channel now _ c)))
        λ b. claim_by_update-Does now b

  module _ (delays : List ℕ) (fn : NotificationJob → Action Nothing) (fn-Does : Does (fn job)) where
    abbrev limit : ℕ
    limit = k.settings.max_attempts

    try_send-Does : (n : ℕ) → 0 < n → n ≤ limit → Does (try_send k job limit delays fn n)
    try_send-Does n p l w = Steps-continue _ w _ (fn-Does w) λ u. mark_sent-Does n p l

    after_failure-Does :
        (n : ℕ) (again : Action Nothing) (e : String) (b : Bool)
        → Does again
        → Does (after_failure k job limit delays fn n again e b)
    after_failure-Does n again e true h w = publish_job-Does job _ w
    after_failure-Does n again e false h w = Steps-continue _ w _ (sleep-Does _ w) λ u. h

    failure-IsCounted :
        (n : ℕ) → 0 < n → n ≤ limit → IsCounted limit (failure_status (leb limit n)) n
    failure-IsCounted n p l = elim (Bool-cases (leb limit n)) [
      | inl e ↦ rw e (ground arith)
      | inr e ↦ rw e (p, ground arith)
    ]

    on_failure-Does :
        (n : ℕ) (again : Action Nothing) (exc : Exc)
        → 0 < n
        → n ≤ limit
        → Does again
        → Does (on_failure k job limit delays fn n again exc)
    on_failure-Does n again exc p l h w =
        Steps-continue _ w _ (mark_failure-Does n _ (leb limit n) (failure-IsCounted n p l) w)
          λ u. after_failure-Does n again _ (leb limit n) h

    pub rounds-Does :
        (left n : ℕ) → (0 < left → left + n ≤ limit) → Does (rounds k job limit delays fn left n)
    unfolding rounds
    rounds-Does zero n l w = here
    rounds-Does (suc left) n l w =
        let m : suc left + n ≤ limit = l (omega arith) in
        Steps-recover _ w _ (try_send-Does (suc n) (omega arith) (omega (arith, m)) w) λ exc.
          on_failure-Does (suc n) _ exc (omega arith) (omega (arith, m))
            (rounds-Does left (suc n) (λ p. omega (arith, m)))
