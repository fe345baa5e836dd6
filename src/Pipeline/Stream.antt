-- ===== src/Pipeline/Stream.antt =====
-- A stream of events that the API receives, up to the ends of all their jobs.
use notification_service_kaf.Prelude.{
  ℕ, ◌≡◌, ◌≢◌, ◌<◌, ap, sym, subst, ◌∙◌, List, [], ◌∷◌, map, none, true, false, All,
}
use notification_service_kaf.Schemas.{NotificationJob}
use notification_service_kaf.Deliveries.{find_row}
use notification_service_kaf.Config.{retry_delays_seconds}
use notification_service_kaf.Events.{BaseEvent}
use notification_service_kaf.Runtime.{World, Worker, kafka, done}
use notification_service_kaf.Runtime.Monad.{ok}
use notification_service_kaf.Api.Publisher.{is_ready}
use notification_service_kaf.Worker.Consumer.{consume}
use notification_service_kaf.Worker.Reliable.{IsReliable}
use notification_service_kaf.Worker.Attempt.{IsUncut}
use notification_service_kaf.Worker.Offsets.{last_commit}
use notification_service_kaf.Worker.Stream.{
  Load, records, IsOther, IsDistinct, IsWaiting, IsFinished,
}
use notification_service_kaf.Worker.Stream.Drain.{consume-settles_each}
use notification_service_kaf.Pipeline.{Carries}
use notification_service_kaf.Pipeline.Jobs.{
  receive_all, jobs_of, push_all, IsNew, AreDistinct, receive_all-outbox, jobs_of-IsNew,
  jobs_of-AreDistinct,
}

-- The jobs of the records.
abbrev pub loaded : List Load → List NotificationJob
loaded [] = []
loaded ((m, job) ∷ ls) = job ∷ loaded ls

IsDistinct-loaded : (ls : List Load) → AreDistinct (loaded ls) → IsDistinct ls
IsDistinct-loaded [] d = tt
IsDistinct-loaded ((m, job) ∷ ls) (o, d) = (others ls o, IsDistinct-loaded ls d)
  where
    others :
        (ks : List Load)
        → All (λ (i : NotificationJob). i.job_id ≢ job.job_id) (loaded ks)
        → All (IsOther job) ks
    others [] h = tt
    others ((n, i) ∷ ks) (h, hs) = (h, others ks hs)

abbrev pub HasNoRow : World → Load → Type 0
HasNoRow v (m, job) = find_row job.job_id v.deliveries ≡ none

abbrev pub CarriesLoad : Worker → Worker → Load → Type 0
CarriesLoad api k (m, job) = Carries api k job m

IsWaiting-loaded :
    (api k : Worker) (c : ℕ) (v : World) (ls : List Load)
    → 0 < k.settings.max_attempts
    → All (CarriesLoad api k) ls
    → All (HasNoRow v) ls
    → All (IsNew api c) (loaded ls)
    → All (IsWaiting k v) ls
IsWaiting-loaded api k c v [] p cs fs ns = tt
IsWaiting-loaded api k c v ((m, job) ∷ ls) p (carried, cs) (f, fs) ((n, l, i, x), ns) = (
  (
    record {
      raw = carried.raw;
      carried = carried.carried;
      payload = _;
      loaded = carried.loaded;
      valid = carried.restored;
    },
    x,
    rw f p,
  ),
  IsWaiting-loaded api k c v ls p cs fs ns,
)

-- What becomes of the events.
pub record AreFinished (api k : Worker) (es : List BaseEvent) (ls : List Load) (w v : World)
    : Type 0 where
  pub on_topic :
      (receive_all api es w).outbox ≡ push_all (map api.libs.model_dump (loaded ls)) w.outbox
  pub returned : (consume k (records ls) v).0 ≡ ok tt
  pub finished : All (IsFinished k k.settings.max_attempts (consume k (records ls) v).1) ls
  pub committed : (consume k (records ls) v).1.committed ≡ last_commit v.committed (records ls)

-- Whatever events an API process receives in turn while its publisher is ready, Kafka takes its
-- messages and uuid4 never repeats itself, the topic gets the dumps of exactly their jobs, in
-- order: one for each registration with a valid payload, none for another event; and a running
-- worker with an open consumer that gets the records of these jobs, from which loads and
-- model_validate restore them, has no row of them, at least one attempt, retry delays that parse,
-- services that work and attempts that nothing cancels, returns with each of the jobs SENT, or
-- FAILED with the maximum of attempts and a dead letter that carries the error of its row, and the
-- offset behind the last record committed.
pub events-AreFinished :
    (api k : Worker) (es : List BaseEvent) (w v : World) (ls : List Load)
    → is_ready w ≡ true
    → ((n : ℕ) → api.env.outcome kafka n ≡ done)
    → ((m n : ℕ) → api.env.uuid4 m ≡ api.env.uuid4 n → m ≡ n)
    → IsReliable k
    → IsUncut k
    → (delays : List ℕ) → retry_delays_seconds k.libs k.settings ≡ ok delays
    → 0 < k.settings.max_attempts
    → v.stopped ≡ false
    → v.consumer_open ≡ true
    → loaded ls ≡ jobs_of api es w
    → All (CarriesLoad api k) ls
    → All (HasNoRow v) ls
    → AreFinished api k es ls w v
events-AreFinished api k es w v ls ready kafka_done unique reliable uncut delays parsed positive
      running open_ e cs fs =
    let new = subst (All (IsNew api w.calls)) (sym e) (jobs_of-IsNew api kafka_done es w ready) in
    let distinct =
      IsDistinct-loaded ls
        (subst AreDistinct (sym e) (jobs_of-AreDistinct api kafka_done unique es w ready)) in
    let (r, f, c) =
      consume-settles_each k reliable uncut delays parsed ls v running open_ distinct
        (IsWaiting-loaded api k w.calls v ls positive cs fs new) in
    record {
      on_topic =
          receive_all-outbox api kafka_done es w ready
          ∙ ap (λ js. push_all (map api.libs.model_dump js) w.outbox) (sym e);
      returned = r;
      finished = f;
      committed = c;
    }
