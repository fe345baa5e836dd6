-- ===== src/Scheduler/Within.antt =====
-- The scheduler keeps the campaigns' limits of runs.
use notification_service_kaf.Prelude.{
  suc, ℕ, ◌≡◌, ◌⊎◌, refl, sym, ap, subst, List, [], ◌∷◌, Option, none, some, Bool, true, false, All,
  arith, Bool-cases, inl, inr,
}
use notification_service_kaf.Campaigns.{
  Campaign, is_campaign_due, limit_reached, update_triggered, sort_by_created, active_campaigns,
}
use notification_service_kaf.Campaigns.Limits.{
  IsWithin, IsDistinct, IsFresh, IsOther, update_triggered-IsWithin, update_triggered-HasRoom,
  update_triggered-IsDistinct, is_campaign_due-limit_reached, fetched-IsDistinct, fetched-IsFresh,
}
use notification_service_kaf.Runtime.{is_exception, World, Worker, Outcome, done, refused, lost, db}
use notification_service_kaf.Runtime.Monad.{
  ◌>>◌, Nothing, Result, ok, raised, pure, continue, recover, tick, call, finish, ask, answer,
  sleep,
}
use notification_service_kaf.Runtime.Views.{continue-view, call-view, recover-view}
use notification_service_kaf.Scheduler.{
  get_active_campaigns, post_event, try_post, mark_if, mark_campaign_triggered, process_campaign,
  process_campaigns, process_fetched, process_tick, write_triggered, checked,
}
use notification_service_kaf.Runtime.{PostReply, broken, responded}

abbrev rows : World → List Campaign
rows w = w.campaigns

-- What processing a campaign does to the table: nothing, or it marks the campaign, which may run.
abbrev Marked : Campaign → List Campaign → List Campaign → Type 0
Marked c t u =
    (u ≡ t)
    ⊎ ((stamp : ℕ) × (limit_reached c.max_runs c.runs_count ≡ false)
        × (u ≡ update_triggered c.id stamp t))

Marked-IsWithin :
    (c : Campaign) (t u : List Campaign)
    → Marked c t u
    → IsFresh t c
    → All IsWithin t
    → All IsWithin u
Marked-IsWithin c t u (inl e) f h = rw e h
Marked-IsWithin c t u (inr (stamp, e, q)) f h =
    rw q (update_triggered-IsWithin c.id stamp t (f e) h)

Marked-IsDistinct :
    (c : Campaign) (t u : List Campaign) → Marked c t u → IsDistinct t → IsDistinct u
Marked-IsDistinct c t u (inl e) d = rw e d
Marked-IsDistinct c t u (inr (stamp, e, q)) d = rw q (update_triggered-IsDistinct c.id stamp t d)

-- The ids are distinct, and no campaign has more runs than its max_runs.
abbrev pub IsSound : List Campaign → Type 0
IsSound t = IsDistinct t × All IsWithin t

Marked-IsSound :
    (c : Campaign) (t u : List Campaign) → Marked c t u → IsFresh t c → IsSound t → IsSound u
Marked-IsSound c t u m f h = (Marked-IsDistinct c t u m h.0, Marked-IsWithin c t u m f h.1)

Marked-IsFresh :
    (c : Campaign) (t u : List Campaign) (ds : List Campaign)
    → Marked c t u
    → All (IsOther c.id) ds
    → All (IsFresh t) ds
    → All (IsFresh u) ds
Marked-IsFresh c t u [] m o h = tt
Marked-IsFresh c t u (d ∷ ds) (inl e) o h = (rw e h.0, Marked-IsFresh c t u ds (inl e) o.1 h.1)
Marked-IsFresh c t u (d ∷ ds) (inr (stamp, e, q)) o h = (
  rw q (λ room. update_triggered-HasRoom c.id d.id stamp t o.0 (h.0 room)),
  Marked-IsFresh c t u ds (inr (stamp, e, q)) o.1 h.1,
)

module _ (k : Worker) where
  checked-rows : (r : PostReply) (w : World) → rows (checked r w).1 ≡ rows w
  checked-rows (broken e) w = refl
  checked-rows (responded s) w = ground arith

  try_post-rows : (c : Campaign) (w : World) → rows (try_post k c w).1 ≡ rows w
  unfolding post_event
  try_post-rows c w = continue-view rows _ w _ refl λ event w₁.
      recover-view rows _ w₁ _
        (continue-view rows _ w₁ _ (checked-rows (k.env.post_reply w₁.calls event) _) (λ x v. refl))
        (λ e v. refl)

  marked :
      (c : Campaign) (o : Outcome) (w v : World)
      → limit_reached c.max_runs c.runs_count ≡ false
      → rows v ≡ rows w
      → Marked c (rows w) (rows (finish o v (write_triggered k c.id v)).1)
  marked c done w v h e = inr (_, h, ap (update_triggered c.id _) e)
  marked c (refused x) w v h e = inl e
  marked c (lost x) w v h e = inr (_, h, ap (update_triggered c.id _) e)

  swallowed : (p : Result Nothing × World) → rows (recover (λ e. pure tt) p).1 ≡ rows p.1
  swallowed p = recover-view rows _ p.1 p refl (λ e v. refl)

  mark_if-Marked :
      (c : Campaign) (b : Bool) (w : World)
      → limit_reached c.max_runs c.runs_count ≡ false
      → Marked c (rows w) (rows (mark_if k c.id b w).1)
  unfolding mark_campaign_triggered call
  mark_if-Marked c false w h = inl refl
  mark_if-Marked c true w h =
      subst (Marked c (rows w)) (sym (swallowed (call k db (write_triggered k c.id) w)))
        (marked c (k.env.outcome db w.calls) w (tick k w) h refl)

  after_post :
      (c : Campaign) (p : Result Bool × World) (w : World)
      → limit_reached c.max_runs c.runs_count ≡ false
      → rows p.1 ≡ rows w
      → Marked c (rows w) (rows (continue (mark_if k c.id) p).1)
  unfolding continue
  after_post c (ok b, v) w h e =
      subst (λ t. Marked c t (rows (mark_if k c.id b v).1)) e (mark_if-Marked c b v h)
  after_post c (raised x, v) w h e = inl e

  process_campaign-Marked :
      (c : Campaign) (now : ℕ) (w : World) → Marked c (rows w) (rows (process_campaign k c now w).1)
  unfolding process_campaign
  process_campaign-Marked c now w = elim (Bool-cases (is_campaign_due k.libs.next_run c now)) [
    | inl e ↦ rw e (
        after_post c (try_post k c w) w (is_campaign_due-limit_reached k.libs.next_run c now e)
          (try_post-rows c w))
    | inr e ↦ rw e (inl refl)
  ]

  -- The campaigns that are left to process are distinct, and as fresh as the table allows.
  abbrev IsQueue : List Campaign → List Campaign → Type 0
  IsQueue t ds = IsDistinct ds × All (IsFresh t) ds × IsSound t

  after_campaign :
      (now : ℕ) (c : Campaign) (cs : List Campaign) (w : World) (p : Result Nothing × World)
      → IsQueue (rows w) (c ∷ cs)
      → Marked c (rows w) (rows p.1)
      → ((v : World) → IsQueue (rows v) cs → IsSound (rows (process_campaigns k now cs v).1))
      → IsSound (rows (continue (λ x. process_campaigns k now cs) p).1)
  unfolding continue
  after_campaign now c cs w (ok x, v) (d, f, h) m rest = rest v (
    d.1,
    Marked-IsFresh c (rows w) (rows v) cs m d.0 f.1,
    Marked-IsSound c (rows w) (rows v) m f.0 h,
  )
  after_campaign now c cs w (raised x, v) (d, f, h) m rest =
      Marked-IsSound c (rows w) (rows v) m f.0 h

  process_campaigns-IsSound :
      (now : ℕ) (cs : List Campaign) (w : World)
      → IsQueue (rows w) cs
      → IsSound (rows (process_campaigns k now cs w).1)
  unfolding process_campaigns
  process_campaigns-IsSound now [] w (d, f, h) = h
  process_campaigns-IsSound now (c ∷ cs) w q =
      after_campaign now c cs w (process_campaign k c now w) q (process_campaign-Marked c now w)
        (process_campaigns-IsSound now cs)

  -- A query's answer: nothing, or the active campaigns of the table.
  abbrev IsAnswer : List Campaign → Result (Option (List Campaign)) → Type 0
  IsAnswer t (ok none) = Unit {0}
  IsAnswer t (ok (some cs)) =
      (rank : Campaign → ℕ) × (cs ≡ sort_by_created rank (active_campaigns t))
  IsAnswer t (raised e) = Unit {0}

  answered :
      (rank : Campaign → ℕ) (o : Outcome) (w : World)
      → let p =
          recover
            (λ e. pure none)
            (continue
              (λ cs. pure (some cs))
              (answer o w (sort_by_created rank (active_campaigns (rows w)), w))) in
        IsAnswer (rows w) p.0 × (rows p.1 ≡ rows w)
  unfolding continue recover
  answered rank done w = ((rank, refl), refl)
  answered rank (refused e) w = elim (Bool-cases (is_exception e)) [
    | inl h ↦ rw h (tt, refl)
    | inr h ↦ rw h (tt, refl)
  ]
  answered rank (lost e) w = elim (Bool-cases (is_exception e)) [
    | inl h ↦ rw h (tt, refl)
    | inr h ↦ rw h (tt, refl)
  ]

  then_sleep :
      (n : ℕ) (p : Result Nothing × World)
      → rows (continue (λ (x : Unit). sleep k n) p).1 ≡ rows p.1
  unfolding sleep
  then_sleep n p =
      continue-view rows _ p.1 p refl (λ x v. call-view rows k (λ u. refl) _ _ v (λ u. refl))

  after_fetch :
      (poll_interval now : ℕ) (t : List Campaign) (p : Result (Option (List Campaign)) × World)
      → IsSound t
      → IsAnswer t p.0
      → rows p.1 ≡ t
      → IsSound (rows (continue (λ o. process_fetched k now o >> sleep k poll_interval) p).1)
  unfolding continue
  after_fetch n now t (ok none, v) h a e = subst IsSound (sym (then_sleep n (ok tt, v))) (rw e h)
  after_fetch n now t (ok (some cs), v) h (rank, a) e =
      subst IsSound (sym (then_sleep n (process_campaigns k now cs v))) (
        process_campaigns-IsSound now cs v
          (rw (a, e) (fetched-IsDistinct rank t h.0, fetched-IsFresh rank t h.0, h)))
  after_fetch n now t (raised x, v) h a e = rw e h

  pub process_tick-IsSound :
      (poll_interval : ℕ) (w : World)
      → IsSound w.campaigns
      → IsSound (process_tick k poll_interval w).1.campaigns
  unfolding process_tick continue get_active_campaigns ask
  process_tick-IsSound poll_interval w h =
      let (a, e) =
        answered (k.env.campaign_rank (suc w.calls)) (k.env.outcome db w.calls) (tick k w) in
      after_fetch _ w.clock w.campaigns _ h a e

  -- A tick of the scheduler over campaigns with distinct ids leaves no campaign with more runs than
  -- its max_runs if none had more before, whatever the calls of the services do and wherever the
  -- tick is cut off.
  process_tick-IsWithin :
      (poll_interval : ℕ) (w : World)
      → IsDistinct w.campaigns
      → All IsWithin w.campaigns
      → All IsWithin (process_tick k poll_interval w).1.campaigns
  process_tick-IsWithin poll_interval w d h = (process_tick-IsSound poll_interval w (d, h)).1
