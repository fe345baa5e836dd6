-- ===== src/Scheduler/Runs.antt =====
-- The scheduler against the API of this repository.
use notification_service_kaf.Prelude.{ℕ, ◌≡◌, refl, List, [], ◌∷◌, Option, none, some, false}
use notification_service_kaf.Events.{BaseEvent, campaign_triggered}
use notification_service_kaf.Campaigns.{Campaign, is_campaign_due}
use notification_service_kaf.Runtime.{World, Worker, responded, other_error}
use notification_service_kaf.Runtime.Monad.{ok, raised, continue, recover, tick, sleep}
use notification_service_kaf.Runtime.Views.{
  continue-view, if-view, call-view, ask-view, recover-view,
}
use notification_service_kaf.Api.Events.{receive_event, handle_event, map_event_to_jobs}
use notification_service_kaf.Scheduler.{
  get_active_campaigns, build_event, post_event, try_post, process_campaign, process_campaigns,
  try_fetch, process_fetched, process_tick,
}

-- The API answers a campaign's event with 501, and does nothing.
pub receive_event-campaign_triggered :
    (k : Worker) (event : BaseEvent) (w : World)
    → event.event_type ≡ campaign_triggered
    → receive_event k event w ≡ (501, w)
unfolding receive_event handle_event map_event_to_jobs continue
receive_event-campaign_triggered k event w e = rw e

abbrev view : World → List Campaign
view w = w.campaigns

module _ (k api : Worker) (at : ℕ → World)
    (wired : (n : ℕ) (e : BaseEvent)
      → k.env.post_reply n e ≡ responded (receive_event api e (at n)).0) where
  post_event-refused :
      (event : BaseEvent) (w : World)
      → event.event_type ≡ campaign_triggered
      → post_event k event w
        ≡ (raised (other_error "HTTPStatusError"), record (tick k w) { posted = event ∷ w.posted })
  unfolding post_event
  post_event-refused event w e =
      rw (wired w.calls event, receive_event-campaign_triggered api event (at w.calls) e)

  try_post-false :
      (c : Campaign) (w : World)
      → try_post k c w ≡ (ok false, record (tick k w) { posted = build_event k c w ∷ w.posted })
  unfolding continue recover
  try_post-false c w = rw (post_event-refused (build_event k c w) w refl)

  process_campaign-campaigns :
      (c : Campaign) (now : ℕ) (w : World) → view (process_campaign k c now w).1 ≡ view w
  unfolding process_campaign continue
  process_campaign-campaigns c now w =
      if-view view (is_campaign_due k.libs.next_run c now) w _ _ (rw (try_post-false c w) refl) refl

  process_campaigns-campaigns :
      (now : ℕ) (cs : List Campaign) (w : World) → view (process_campaigns k now cs w).1 ≡ view w
  unfolding process_campaigns
  process_campaigns-campaigns now [] w = refl
  process_campaigns-campaigns now (c ∷ cs) w =
      continue-view view _ w (process_campaign k c now w) (process_campaign-campaigns c now w)
        λ x v. process_campaigns-campaigns now cs v

  try_fetch-campaigns : (w : World) → view (try_fetch k w).1 ≡ view w
  unfolding get_active_campaigns
  try_fetch-campaigns w =
      recover-view view _ w _
        (continue-view view _ w _ (ask-view view k (λ v. refl) _ _ w (λ v. refl)) (λ cs v. refl))
        (λ e v. refl)

  fetched-campaigns :
      (now : ℕ) (o : Option (List Campaign)) (w : World)
      → view (process_fetched k now o w).1 ≡ view w
  fetched-campaigns now none w = refl
  fetched-campaigns now (some cs) w = process_campaigns-campaigns now cs w

  -- Where the answers to the scheduler's requests are those of the events endpoint of an API
  -- process, in whatever states that process is, a tick changes no campaign: none is marked as
  -- triggered, however often it is due.
  pub process_tick-campaigns :
      (poll_interval : ℕ) (w : World) → (process_tick k poll_interval w).1.campaigns ≡ w.campaigns
  unfolding process_tick sleep
  process_tick-campaigns poll_interval w = continue-view view _ w _ refl λ now w₁.
      continue-view view _ w₁ _ (try_fetch-campaigns w₁) λ o w₂.
        continue-view view _ w₂ _ (fetched-campaigns now o w₂)
          λ x w₃. call-view view k (λ v. refl) _ _ w₃ (λ v. refl)
