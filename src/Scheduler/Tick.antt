-- ===== src/Scheduler/Tick.antt =====
-- A tick of the scheduler where the database and the timers work, whichever events the API accepts.
use notification_service_kaf.Prelude.{
  ℕ, suc, ◌≡◌, String, List, [], ◌∷◌, map, Bool, true, false, ◌&&◌,
}
use notification_service_kaf.Schemas.{Members}
use notification_service_kaf.Events.{BaseEvent, EventType, campaign_triggered}
use notification_service_kaf.Campaigns.{Campaign, is_campaign_due}
use notification_service_kaf.Campaigns.Marks.{timeless, select, mark_all}
use notification_service_kaf.Runtime.{
  World, Worker, db, timer, done, PostReply, responded, broken, is_exception,
}
use notification_service_kaf.Runtime.Monad.{Nothing, Result, ok, tick}
use notification_service_kaf.Scheduler.{write_triggered, campaign_payload, build_event, is_success}

-- An event without its id and its instant.
abbrev pub Announcement : Type 0
Announcement = EventType × String × Members

abbrev pub announced : BaseEvent → Announcement
announced e = (e.event_type, e.source, e.payload)

-- The announcement of a campaign.
abbrev pub announcement : Worker → Campaign → Announcement
announcement k c = (campaign_triggered, "campaign_scheduler", campaign_payload k c)

-- The events of these campaigns, the last one first, before those that were posted before.
abbrev pub announce_all : Worker → List Campaign → List Announcement → List Announcement
announce_all k [] es = es
announce_all k (c ∷ cs) es = announce_all k cs (announcement k c ∷ es)

-- Whether a reply accepts an event; what a broken connection raises is no cancellation.
abbrev pub IsReply : Bool → PostReply → Type 0
IsReply b (responded status) = is_success status ≡ b
IsReply b (broken e) = (b ≡ false) × (is_exception e ≡ true)

-- The database and the timers do what they are asked, and what an event announces decides whether
-- the API accepts it.
pub record IsAnswering (k : Worker) (accepts : Announcement → Bool) : Type 0 where
  pub db_done : (n : ℕ) → k.env.outcome db n ≡ done
  pub timer_done : (n : ℕ) → k.env.outcome timer n ≡ done
  pub replied : (n : ℕ) (e : BaseEvent) → IsReply (accepts (announced e)) (k.env.post_reply n e)

module _ (k : Worker) (accepts : Announcement → Bool) (answering : IsAnswering k accepts) where
  abbrev due : ℕ → Campaign → Bool
  due now c = is_campaign_due k.libs.next_run c now

  -- Due, and the API takes its event.
  abbrev taken : ℕ → Campaign → Bool
  taken now c = due now c && accepts (announcement k c)

  -- The world behind the post of a campaign's event.
  abbrev posted_world : Campaign → World → World
  posted_world c w = record (tick k w) { posted = build_event k c w ∷ w.posted }

  -- The world behind a campaign that is due.
  abbrev processed : Campaign → Bool → World → World
  processed c true w = write_triggered k c.id (tick k (posted_world c w))
  processed c false w = posted_world c w

  record IsRunOf (now : ℕ) (cs : List Campaign) (w : World) (p : Result Nothing × World)
      : Type 0 where
    returned : p.0 ≡ ok tt
    marks : map timeless p.1.campaigns ≡ mark_all (select (taken now) cs) (map timeless w.campaigns)
    posts : map announced p.1.posted ≡ announce_all k (select (due now) cs) (map announced w.posted)

  -- How the query that starts here ranks campaigns of one instant.
  abbrev rank_of : World → Campaign → ℕ
  rank_of w = k.env.campaign_rank (suc w.calls)
