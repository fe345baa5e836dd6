-- ===== src/Tests/ServiceTests.antt =====
-- The theorems on a job's whole way and on the delivery table at concrete inputs.
use notification_service_kaf.Prelude.{false, ◌≤◌, ℕ, ◌≡◌, refl, [], ◌∷◌, List, some, arith, true}
use notification_service_kaf.Schemas.{NotificationDelivery}
use notification_service_kaf.Text.{strip, split}
use notification_service_kaf.Config.{floats, retry_delays_seconds}
use notification_service_kaf.Deliveries.Store.{store_of}
use notification_service_kaf.Runtime.{World, Worker}
use notification_service_kaf.Runtime.Monad.{Result, Nothing, ok}
use notification_service_kaf.Worker.Repo.{try_claim_job}
use notification_service_kaf.Worker.Status.{mark_failure}
use notification_service_kaf.Worker.Contended.{IsSeized, mark_failure-IsSeized}
use notification_service_kaf.Worker.Exclusive.{Statement, inserts, updates, grants, grants-le}
use notification_service_kaf.Worker.Restarts.{Lives, first, restarted, unread, IsKept, Lives-IsKept}
use notification_service_kaf.Worker.Processor.{handle_job}
use notification_service_kaf.Worker.Consumer.{Record, consume, handle_and_commit}
use notification_service_kaf.Worker.Attempt.{IsUncut}
use notification_service_kaf.Worker.Outcome.{IsSettled}
use notification_service_kaf.Worker.Delivery.{handle_and_commit-IsSettled, handle_job-settled_once}
use notification_service_kaf.Deliveries.Store.{taken, put}
use notification_service_kaf.Worker.Atomic.{seen, try_claim_job-claim}
use notification_service_kaf.Tests.Samples.{
  sample_worker, sample_world, sample_job, calm, smtp_down, claimed_delivery,
}
use notification_service_kaf.Tests.WorkerTests.{
  smtp_down-IsReliable, sample_record, sample_is_record,
}

abbrev worker : Worker
worker = sample_worker smtp_down

abbrev delays : List ℕ
delays = 1000000 ∷ 1000000 ∷ 1000000 ∷ []

worker-IsUncut : IsUncut worker
worker-IsUncut = record {
  smtp_caught = λ n. refl;
  auth_caught = λ n. refl;
  formats_calmly = λ s v e h. absurd (cc);
}

handle_and_commit-IsSettled_example :
    IsSettled worker sample_job 3
      (sample_world [])
      (handle_and_commit worker sample_record (sample_world []))
    × ((handle_and_commit worker sample_record (sample_world [])).1.committed ≡ some 0)
unfolding retry_delays_seconds floats strip split
handle_and_commit-IsSettled_example =
    handle_and_commit-IsSettled worker smtp_down-IsReliable worker-IsUncut sample_job delays refl
      sample_record (sample_world []) sample_is_record refl (omega arith) tt

handle_job-settled_once_example :
    let v = (handle_job worker sample_job (sample_world [])).1 in
    (handle_job (sample_worker calm) sample_job v).1.sent ≡ v.sent
unfolding retry_delays_seconds floats strip split
handle_job-settled_once_example =
    handle_job-settled_once worker smtp_down-IsReliable worker-IsUncut sample_job delays refl
      (sample_worker calm) (sample_world []) (omega arith) tt

-- A claim that has been stale for long.
abbrev stale_delivery : NotificationDelivery
stale_delivery = record claimed_delivery { processing_started_at = some 5 }

try_claim_job-claim_example :
    let w = sample_world (stale_delivery ∷ []) in
    seen (try_claim_job worker 7 1 "email" w)
    ≡ (ok true, put 7 (taken 1000000000 0 stale_delivery) (store_of (stale_delivery ∷ [])))
try_claim_job-claim_example =
    try_claim_job-claim worker 7 1 "email" smtp_down-IsReliable (sample_world (stale_delivery ∷ []))

-- A stream of one record after an offset that is committed.
abbrev offset_world : World
offset_world = record (sample_world []) { committed = some 2 }

abbrev one_record : List Record
one_record = sample_record ∷ []

-- The worker handles the record and crashes; a new process starts from what was committed.
abbrev restarted_world : World
restarted_world = record offset_world {
  committed = (consume worker (unread (some 2) one_record) offset_world).1.committed;
}

abbrev second_life : Result Nothing × World
second_life = consume worker (unread restarted_world.committed one_record) restarted_world

restart_once : Lives one_record offset_world second_life
restart_once = restarted worker _ restarted_world (first worker) refl refl

Lives-IsKept_example : IsKept restart_once (some 2)
Lives-IsKept_example =
    Lives-IsKept one_record 2 offset_world second_life restart_once refl refl (omega arith, tt)

-- Two workers that claim job 7 at once: their INSERTs, and then their UPDATEs.
abbrev two_claimants : List Statement
two_claimants =
    inserts 1 "email" 1000000000 0
    ∷ inserts 1 "email" 1000000009 0
    ∷ updates 1000000009 0
    ∷ updates 1000000000 0
    ∷ []

grants-le_example : grants 7 two_claimants (stale_delivery ∷ []) ≤ 1
grants-le_example = grants-le 7 1000000000 two_claimants (stale_delivery ∷ []) (ground arith)

mark_failure-IsSeized_example :
    let v = (mark_failure worker sample_job 1 "smtp down" false (sample_world [])).1 in
    IsSeized 7 1 v (try_claim_job (sample_worker calm) 7 1 "email" v)
mark_failure-IsSeized_example =
    mark_failure-IsSeized worker (sample_worker calm) sample_job 1 "email" (λ n. refl)
      (record { db_done = λ n. refl; kafka_done = λ n. refl; timer_done = λ n. refl }) 1 "smtp down"
      (sample_world [])
