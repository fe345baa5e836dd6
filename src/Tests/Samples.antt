-- ===== src/Tests/Samples.antt =====
-- A worker, its surroundings and a job.
use notification_service_kaf.Prelude.{◌+◌, List, [], ◌∷◌, none, some, false, true}
use notification_service_kaf.Schemas.{
  NotificationJob, NotificationDelivery, NotificationMeta, Template, email, normal, null, text, end,
  member, processing,
}
use notification_service_kaf.Prelude.{inl, inr}
use notification_service_kaf.Config.{default_settings}
use notification_service_kaf.Runtime.{
  World, Worker, Settings, Libs, Env, Outcome, done, refused, Service, responded, db, smtp, kafka,
  timer, disk, http, failed, other_error,
}

abbrev pub sample_settings : Settings
sample_settings = record default_settings { retry_delays_seconds_raw = "1, 3,,10" }

abbrev pub sample_meta : NotificationMeta
sample_meta = record {
  event_type = "user_registered";
  event_id = some 5;
  campaign_id = none;
  priority = normal;
}

-- Job 7, for user 1, by email.
abbrev pub sample_job : NotificationJob
sample_job = record {
  job_id = 7;
  user_id = 1;
  channel = email;
  template_code = "welcome_email";
  locale = "en";
  job_data = member "name" (text "Ann") end;
  meta = sample_meta;
  created_at = 0;
  send_after = none;
  expires_at = none;
}

abbrev pub sample_libs : Libs
sample_libs = record {
  uuid_text = λ n. "id";
  int_text = λ n. "5432";
  json_text = λ v. "?";
  repr = λ s. s;
  format_special = λ s v. inl s;
  float = λ s. some 1000000;
  loads = λ raw. some null;
  validate = λ v. some sample_job;
  model_dump = λ j. null;
  decode_replace = λ raw. "raw";
  next_run = λ cron base. some (base + 60000000);
  parse_user_registered = λ p.
      inl
        (record { user_id = 1; registration_channel = "web"; locale = "en"; user_agent = "curl" });
  parse_new_film_released = λ p. inr "Field required";
  parse_campaign_triggered = λ p. inr "Field required";
}

-- Surroundings in which every call succeeds and takes one microsecond.
abbrev pub calm : Env
calm = record {
  outcome = λ s n. done;
  elapse = λ n. 1;
  db_now = λ n. 0;
  auth_reply = λ n. failed (other_error "offline");
  post_reply = λ n e. responded 202;
  template_rank = λ n t. n;
  campaign_rank = λ n c. n;
  uuid4 = λ n. n;
}

abbrev pub smtp_down_outcome : Service → Outcome
smtp_down_outcome db = done
smtp_down_outcome kafka = done
smtp_down_outcome timer = done
smtp_down_outcome disk = done
smtp_down_outcome http = done
smtp_down_outcome smtp = refused (other_error "smtp down")

-- Surroundings in which the mail server refuses everything.
abbrev pub smtp_down : Env
smtp_down = record calm { outcome = λ s n. smtp_down_outcome s }

abbrev pub sample_worker : Env → Worker
sample_worker e = record {
  settings = sample_settings;
  libs = sample_libs;
  env = e;
  has_http = false;
}

abbrev pub sample_template : Template
sample_template = record {
  id = 3;
  template_code = "welcome_email";
  locale = "en";
  channel = "email";
  subject = some "Hi {name}";
  body = "{{Dear}} {name}";
  created_at = 0;
  updated_at = 0;
}

abbrev pub sample_world : List NotificationDelivery → World
sample_world rows = record {
  clock = 1000000000;
  calls = 0;
  deliveries = rows;
  templates = sample_template ∷ [];
  sent = [];
  dlq = [];
  consumer_open = true;
  stopped = false;
  position = 0;
  committed = none;
  publisher_enabled = true;
  publisher_started = true;
  outbox = [];
  campaigns = [];
  posted = [];
  ready = false;
  pool_open = false;
  producer_open = false;
  http_open = false;
  topics = [];
  schema = false;
  heartbeat = none;
}

-- A row of job 7 that another worker has claimed a second ago.
abbrev pub claimed_delivery : NotificationDelivery
claimed_delivery = record {
  job_id = 7;
  user_id = 1;
  channel = "email";
  status = processing;
  attempts = 0;
  error_code = none;
  error_message = none;
  processing_started_at = some 999000000;
  sent_at = none;
  created_at = 0;
  updated_at = 0;
}
