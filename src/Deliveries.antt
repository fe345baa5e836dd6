-- ===== src/Deliveries.antt =====
-- The table `notification_delivery` as the SQL of worker/repositories/notification_delivery_repo.py
-- reads and writes it: one pure function for each statement. The table is a list of rows; the
-- primary key keeps job_id unique (Deliveries/Keys).
pub mod Keys
pub mod Frame
pub mod Claim
pub mod Store
use notification_service_kaf.Prelude.{
  ℕ, String, List, [], ◌∷◌, Option, none, some, Bool, true, false, ◌&&◌, ltb, ◌==◌, if◌then◌else◌,
}
use notification_service_kaf.Schemas.{
  NotificationStatus, processing, sent, failed, retrying, expired, NotificationDelivery,
}

abbrev pub Table : Type 0
Table = List NotificationDelivery

-- SELECT … WHERE job_id = $1, with fetchrow.
abbrev pub find_row : ℕ → Table → Option NotificationDelivery
find_row j [] = none
find_row j (r ∷ t) = if r.job_id == j then some r else find_row j t

-- The row of `INSERT … VALUES ($1, $2, $3, $4, 0, $5)`; `stamp` is the database's now().
abbrev pub claimed_row : ℕ → ℕ → String → ℕ → ℕ → NotificationDelivery
claimed_row j user channel now stamp = record {
  job_id = j;
  user_id = user;
  channel = channel;
  status = processing;
  attempts = 0;
  error_code = none;
  error_message = none;
  processing_started_at = some now;
  sent_at = none;
  created_at = stamp;
  updated_at = stamp;
}

-- INSERT … ON CONFLICT (job_id) DO NOTHING, and whether the tag is `INSERT 0 1`.
unfoldable pub insert_claim : ℕ → ℕ → String → ℕ → ℕ → Table → Table × Bool
insert_claim j user channel now stamp [] = (claimed_row j user channel now stamp ∷ [], true)
insert_claim j user channel now stamp (r ∷ t) =
    let rest = insert_claim j user channel now stamp t in
    if r.job_id == j then (r ∷ t, false) else (r ∷ rest.0, rest.1)

-- status NOT IN ('SENT', 'FAILED', 'EXPIRED').
abbrev pub is_open : NotificationStatus → Bool
is_open sent = false
is_open failed = false
is_open expired = false
is_open processing = true
is_open retrying = true

-- processing_started_at IS NULL OR processing_started_at < $4.
abbrev pub is_stale : ℕ → Option ℕ → Bool
is_stale stale_before none = true
is_stale stale_before (some t) = ltb t stale_before

-- status <> 'PROCESSING' OR processing_started_at IS NULL OR processing_started_at < $4.
abbrev pub is_free : ℕ → NotificationStatus → Option ℕ → Bool
is_free stale_before processing started = is_stale stale_before started
is_free stale_before sent started = true
is_free stale_before failed started = true
is_free stale_before retrying started = true
is_free stale_before expired started = true

-- The WHERE clause of the UPDATE, but for job_id = $1.
abbrev pub claimable : ℕ → NotificationDelivery → Bool
claimable stale_before r = is_open r.status && is_free stale_before r.status r.processing_started_at

-- UPDATE … SET status = 'PROCESSING', processing_started_at = $3, and whether the tag is `UPDATE 1`.
unfoldable pub update_claim : ℕ → ℕ → ℕ → ℕ → Table → Table × Bool
update_claim j now stale_before stamp [] = ([], false)
update_claim j now stale_before stamp (r ∷ t) =
    let rest = update_claim j now stale_before stamp t in
    if r.job_id == j
    then if claimable stale_before r
      then (
        record r { status = processing; processing_started_at = some now; updated_at = stamp } ∷ t,
        true,
      )
      else (r ∷ t, false)
    else (r ∷ rest.0, rest.1)

-- The values that save_status writes.
pub record Saved : Type 0 where
  pub job_id : ℕ
  pub user_id : ℕ
  pub channel : String
  pub status : NotificationStatus
  pub attempts : ℕ
  pub error_code : Option String
  pub error_message : Option String
  pub sent_at : Option ℕ

abbrev pub saved_row : Saved → ℕ → NotificationDelivery
saved_row s stamp = record {
  job_id = s.job_id;
  user_id = s.user_id;
  channel = s.channel;
  status = s.status;
  attempts = s.attempts;
  error_code = s.error_code;
  error_message = s.error_message;
  processing_started_at = none;
  sent_at = s.sent_at;
  created_at = stamp;
  updated_at = stamp;
}

-- DO UPDATE SET …: user_id, channel and created_at stay.
abbrev pub overwrite : Saved → ℕ → NotificationDelivery → NotificationDelivery
overwrite s stamp r = record r {
  status = s.status;
  attempts = s.attempts;
  error_code = s.error_code;
  error_message = s.error_message;
  processing_started_at = none;
  sent_at = s.sent_at;
  updated_at = stamp;
}

-- INSERT … ON CONFLICT (job_id) DO UPDATE.
unfoldable pub upsert : Saved → ℕ → Table → Table
upsert s stamp [] = saved_row s stamp ∷ []
upsert s stamp (r ∷ t) =
    if r.job_id == s.job_id then overwrite s stamp r ∷ t else r ∷ upsert s stamp t
