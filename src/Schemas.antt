-- ===== src/Schemas.antt =====
-- The shared data: common/schemas/*.py, the row classes of db/models.py and the JSON values that
-- cross the wire. A UUID is a number, which the program only compares and prints; an instant is a
-- number of microseconds on one time line.
use notification_service_kaf.Prelude.{
  ℕ, String, Option, none, some, Bool, true, false, not, ◌&&◌, str_eq, if◌then◌else◌,
}

-- class NotificationStatus (StrEnum), and db.models.DeliveryStatus, which has the same members.
pub data NotificationStatus : Type 0 where
  processing sent failed retrying expired : NotificationStatus

-- class NotificationChannel (StrEnum).
pub data NotificationChannel : Type 0 where
  email push ws sms : NotificationChannel

-- `.value` of a channel.
abbrev pub value : NotificationChannel → String
value email = "email"
value push = "push"
value ws = "ws"
value sms = "sms"

-- `NotificationChannel(text)`: `none` stands for the ValueError.
abbrev pub channel_of_text : String → Option NotificationChannel
channel_of_text s =
    if str_eq s "email"
    then some email
    else if str_eq s "push"
    then some push
    else if str_eq s "ws"
    then some ws
    else if str_eq s "sms"
    then some sms
    else none

pub data NotificationPriority : Type 0 where
  normal high : NotificationPriority

-- What json.loads returns. A number is kept as its text, with whether it is zero.
mutual
  pub data Json : Type 0 where
    null : Json
    bool : Bool → Json
    number : String → Bool → Json
    text : String → Json
    array : Items → Json
    object : Members → Json

  pub data Items : Type 0 where
    nil : Items
    cons : Json → Items → Items

  pub data Members : Type 0 where
    end : Members
    member : String → Json → Members → Members

abbrev pub is_blank : String → Bool
is_blank s = str_eq s ""

-- Python's truth value.
abbrev pub truthy : Json → Bool
truthy null = false
truthy (bool b) = b
truthy (number s zero?) = not zero?
truthy (text s) = not (is_blank s)
truthy (array nil) = false
truthy (array (cons x xs)) = true
truthy (object end) = false
truthy (object (member k v ms)) = true

-- `d.get(key)` on a dict: a missing key gives None. The members are those of the parsed dict, in
-- which a key stands once.
abbrev pub get_member : String → Members → Json
get_member k end = null
get_member k (member j v ms) = if str_eq j k then v else get_member k ms

-- class NotificationMeta.
pub record NotificationMeta : Type 0 where
  pub event_type : String
  pub event_id : Option ℕ
  pub campaign_id : Option ℕ
  pub priority : NotificationPriority

-- class NotificationJob. `job_data` is the field `data`.
pub record NotificationJob : Type 0 where
  pub job_id : ℕ
  pub user_id : ℕ
  pub channel : NotificationChannel
  pub template_code : String
  pub locale : String
  pub job_data : Members
  pub meta : NotificationMeta
  pub created_at : ℕ
  pub send_after : Option ℕ
  pub expires_at : Option ℕ

-- db.models.Template, a row of the table `templates`.
pub record Template : Type 0 where
  pub id : ℕ
  pub template_code : String
  pub locale : String
  pub channel : String
  pub subject : Option String
  pub body : String
  pub created_at : ℕ
  pub updated_at : ℕ

-- db.models.NotificationDelivery, a row of the table `notification_delivery`.
pub record NotificationDelivery : Type 0 where
  pub job_id : ℕ
  pub user_id : ℕ
  pub channel : String
  pub status : NotificationStatus
  pub attempts : ℕ
  pub error_code : Option String
  pub error_message : Option String
  pub processing_started_at : Option ℕ
  pub sent_at : Option ℕ
  pub created_at : ℕ
  pub updated_at : ℕ

-- `uq_template_code_locale_channel`: the columns that name a template.
abbrev pub has_key : String → String → String → Template → Bool
has_key code locale channel t =
    str_eq t.template_code code && str_eq t.locale locale && str_eq t.channel channel
