-- ===== src/Events.antt =====
-- notifications_api/schemas/event.py.
use notification_service_kaf.Prelude.{ℕ, String, List}
use notification_service_kaf.Schemas.{Members}

-- int, as the library's ℤ but over the native ℕ: `negsuc n` is -(n + 1).
pub data ℤ : Type 0 where
  pos negsuc : ℕ → ℤ

pub data EventType : Type 0 where
  user_registered new_film_released campaign_triggered : EventType

-- `.value` of an event type.
abbrev pub event_name : EventType → String
event_name user_registered = "user_registered"
event_name new_film_released = "new_film_released"
event_name campaign_triggered = "campaign_triggered"

-- class UserRegisteredEventPayload.
pub record UserRegistered : Type 0 where
  pub user_id : ℕ
  pub registration_channel : String
  pub locale : String
  pub user_agent : String

-- class NewFilmReleasedTargetSegment.
pub record TargetSegment : Type 0 where
  pub by_genres : List String
  pub min_age : ℤ

-- class NewFilmReleasedEventPayload; `release_date` is the number of a day.
pub record NewFilmReleased : Type 0 where
  pub film_id : ℕ
  pub title : String
  pub genres : List String
  pub age_rating : String
  pub release_date : ℕ
  pub target_segment : TargetSegment

-- class CampaignTriggeredSegment.
pub record CampaignSegment : Type 0 where
  pub segment_id : String

-- class CampaignTriggeredEventPayload.
pub record CampaignTriggered : Type 0 where
  pub campaign_id : ℕ
  pub template_code : String
  pub channels : List String
  pub segment : CampaignSegment

-- class BaseEvent. `payload` is the dict's members.
pub record BaseEvent : Type 0 where
  pub event_id : ℕ
  pub event_type : EventType
  pub source : String
  pub occurred_at : ℕ
  pub payload : Members
