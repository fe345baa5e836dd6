-- ===== src/Campaigns.antt =====
-- The table `campaigns`: db.models.Campaign, and the SQL of
-- campaign_scheduler/repositories/campaigns_repo.py as pure functions.
pub mod Limits
pub mod Marks
use notification_service_kaf.Prelude.{
  ℕ, ◌+◌, String, List, [], ◌∷◌, Option, none, some, Bool, true, false, leb, ltb, ◌==◌,
  if◌then◌else◌,
}

-- class CampaignStatus.
pub data CampaignStatus : Type 0 where
  active inactive paused : CampaignStatus

-- A row of the table.
pub record Campaign : Type 0 where
  pub id : ℕ
  pub name : String
  pub template_code : String
  pub segment_id : String
  pub schedule_cron : String
  pub status : CampaignStatus
  pub created_at : ℕ
  pub updated_at : ℕ
  pub last_triggered_at : Option ℕ
  pub runs_count : ℕ
  pub max_runs : Option ℕ

abbrev pub is_active : CampaignStatus → Bool
is_active active = true
is_active inactive = false
is_active paused = false

-- WHERE status = 'ACTIVE'.
unfoldable pub active_campaigns : List Campaign → List Campaign
active_campaigns [] = []
active_campaigns (c ∷ cs) =
    let rest = active_campaigns cs in if is_active c.status then c ∷ rest else rest

-- ORDER BY created_at ASC: the older row first. Which of two rows of one instant comes first is up to
-- the database, and may differ from one query to the next.
abbrev pub is_older : (Campaign → ℕ) → Campaign → Campaign → Bool
is_older rank c d =
    if c.created_at == d.created_at then leb (rank c) (rank d) else ltb c.created_at d.created_at

unfoldable pub insert_by_created : (Campaign → ℕ) → Campaign → List Campaign → List Campaign
insert_by_created rank c [] = c ∷ []
insert_by_created rank c (d ∷ ds) =
    let rest = insert_by_created rank c ds in if is_older rank c d then c ∷ d ∷ ds else d ∷ rest

unfoldable pub sort_by_created : (Campaign → ℕ) → List Campaign → List Campaign
sort_by_created rank [] = []
sort_by_created rank (c ∷ cs) = insert_by_created rank c (sort_by_created rank cs)

-- max_runs IS NOT NULL AND runs >= max_runs.
abbrev pub limit_reached : Option ℕ → ℕ → Bool
limit_reached none runs = false
limit_reached (some limit) runs = leb limit runs

-- The SET clause of mark_campaign_triggered; `stamp` is the database's NOW().
abbrev pub triggered : ℕ → Campaign → Campaign
triggered stamp c = record c {
  last_triggered_at = some stamp;
  runs_count = c.runs_count + 1;
  updated_at = stamp;
  status = if limit_reached c.max_runs (c.runs_count + 1) then inactive else active;
}

-- UPDATE campaigns SET … WHERE id = $1. The id is the primary key.
unfoldable pub update_triggered : ℕ → ℕ → List Campaign → List Campaign
update_triggered i stamp [] = []
update_triggered i stamp (c ∷ cs) =
    let rest = update_triggered i stamp cs in (if c.id == i then triggered stamp c else c) ∷ rest

-- is_campaign_due (service/scheduler_service.py), with croniter's answer.
abbrev pub due_at : Option ℕ → ℕ → Bool
due_at none now = false
due_at (some next) now = leb next now

abbrev pub due_since : (String → ℕ → Option ℕ) → String → Option ℕ → ℕ → Bool
due_since next_run cron none now = true
due_since next_run cron (some base) now = due_at (next_run cron base) now

unfoldable pub is_campaign_due : (String → ℕ → Option ℕ) → Campaign → ℕ → Bool
is_campaign_due next_run c now =
    if limit_reached c.max_runs c.runs_count
    then false
    else due_since next_run c.schedule_cron c.last_triggered_at now
