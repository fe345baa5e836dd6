-- ===== src/Scheduler/Lasting.antt =====
-- What holds of the campaigns for as long as the scheduler runs.
use notification_service_kaf.Prelude.{ℕ, zero, suc, ◌≡◌, refl, sym, ap, ◌∙◌, subst, List}
use notification_service_kaf.Campaigns.{Campaign}
use notification_service_kaf.Runtime.{World, Worker, db, disk}
use notification_service_kaf.Runtime.Monad.{
  Action, Nothing, Result, ok, raised, continue, call, ensure,
}
use notification_service_kaf.Runtime.Views.{
  overridden-world, continue-view, call-view, recover-view,
}
use notification_service_kaf.Health.{marked, mark_ready, clear_ready}
use notification_service_kaf.Scheduler.Loop.{ticks, release, run_scheduler}
use notification_service_kaf.Scheduler.Within.{IsSound, process_tick-IsSound}
use notification_service_kaf.Worker.Startup.{open_pool, create_http_client}

abbrev table : World → List Campaign
table w = w.campaigns

module _ (k : Worker) where
  abbrev Sound : World → Type 0
  Sound w = IsSound w.campaigns

  ticked :
      (f : Action Nothing) (p : Result Nothing × World)
      → Sound p.1
      → ((w : World) → Sound w → Sound (f w).1)
      → Sound (continue (λ x. f) p).1
  unfolding continue
  ticked f (ok x, w) h rest = rest w h
  ticked f (raised e, w) h rest = h

  ticks-Sound : (poll_interval n : ℕ) (w : World) → Sound w → Sound (ticks k poll_interval n w).1
  unfolding ticks
  ticks-Sound poll_interval zero w h = h
  ticks-Sound poll_interval (suc n) w h =
      ticked _ _ (process_tick-IsSound k poll_interval w h) (ticks-Sound poll_interval n)

  clear_ready-table : (w : World) → table (clear_ready k w).1 ≡ table w
  unfolding clear_ready
  clear_ready-table w =
      recover-view table _ w _ (call-view table k (λ v. refl) _ _ w (λ v. refl)) (λ e v. refl)

  release-table : (w : World) → table (release k w).1 ≡ table w
  unfolding release
  release-table w = continue-view table _ w _ (clear_ready-table w) λ x v.
      continue-view table _ v _ (call-view table k (λ u. refl) _ _ v (λ u. refl))
        λ y u. call-view table k (λ z. refl) _ _ u (λ z. refl)

  looped :
      (poll_interval n : ℕ) (w : World)
      → Sound w
      → Sound (ensure (ticks k poll_interval n) (release k) w).1
  looped poll_interval n w h =
      let (r, v) = ticks k poll_interval n w in
      subst IsSound (sym (ap table (overridden-world r (release k v)) ∙ release-table v))
        (ticks-Sound poll_interval n w h)

  kept : (f : Action Nothing) (w : World) → table (f w).1 ≡ table w → Sound w → Sound (f w).1
  kept f w e h = subst IsSound (sym e) h

  -- However many ticks the scheduler makes, whatever the calls of the services do and however it
  -- ends, if the campaigns had distinct ids and no campaign had more runs than its max_runs at its
  -- start, the same holds at its end.
  pub run_scheduler-IsSound :
      (poll_interval n : ℕ) (w : World)
      → IsSound w.campaigns
      → IsSound (run_scheduler k poll_interval n w).1.campaigns
  unfolding run_scheduler create_http_client mark_ready
  run_scheduler-IsSound poll_interval n w h =
      ticked _ (clear_ready k w) (kept (clear_ready k) w (clear_ready-table w) h) λ w₁ h₁.
        ticked _ (call k db open_pool w₁)
          (kept (call k db open_pool) w₁ (call-view table k (λ v. refl) _ _ w₁ (λ v. refl)) h₁)
          λ w₂ h₂. ticked _ (create_http_client w₂) h₂ λ w₃ h₃.
            ticked _ (call k disk marked w₃)
              (kept (call k disk marked) w₃ (call-view table k (λ v. refl) _ _ w₃ (λ v. refl)) h₃)
              (looped poll_interval n)
