-- ===== src/Tests/LifeTests.antt =====
-- The theorems on the life of the processes at concrete inputs.
use notification_service_kaf.Prelude.{
  ℕ, ◌≡◌, refl, [], ◌∷◌, arith, true, false, none, if◌then◌else◌, ◌==◌,
}
use notification_service_kaf.Runtime.{
  exc_text, http_exception, World, Worker, Service, db, kafka, smtp, timer, disk, http, Outcome,
  done, refused, kafka_connection_error,
}
use notification_service_kaf.Runtime.Monad.{ok, call, continue}
use notification_service_kaf.Init.{create_topics}
use notification_service_kaf.Init.Topics.{HasTopics, create_topics-HasTopics}
use notification_service_kaf.Scheduler.Loop.{run_scheduler}
use notification_service_kaf.Scheduler.Within.{IsSound}
use notification_service_kaf.Scheduler.Lasting.{run_scheduler-IsSound}
use notification_service_kaf.Worker.Consumer.{consume, run_loop, handle_message, commit_message}
use notification_service_kaf.Worker.Dlq.{publish_raw, send_dlq}
use notification_service_kaf.Worker.Main.{app}
use notification_service_kaf.Worker.Lifetime.{app-unready}
use notification_service_kaf.Worker.Silent.{IsClosed, run_loop-kafka_error}
use notification_service_kaf.Tests.Samples.{
  sample_worker, sample_world, sample_libs, calm, smtp_down,
}
use notification_service_kaf.Tests.WorkerTests.{sample_record}
use notification_service_kaf.Tests.ApiTests.{api, campaign_world}

abbrev worker : Worker
worker = sample_worker smtp_down

-- Kafka cannot be reached.
abbrev unreachable : Service → Outcome
unreachable kafka = refused (kafka_connection_error "unreachable")
unreachable db = done
unreachable timer = done
unreachable disk = done
unreachable http = done
unreachable smtp = done

abbrev cut_off : Worker
cut_off = sample_worker (record calm { outcome = λ s n. unreachable s })

create_topics-HasTopics_example :
    let p = create_topics worker (sample_world []) in
    let q = create_topics worker p.1 in
    (p.0 ≡ ok tt) × HasTopics worker p.1 × (q.0 ≡ ok tt) × (q.1.topics ≡ p.1.topics)
create_topics-HasTopics_example = create_topics-HasTopics worker (λ n. refl) (sample_world [])

app-unready_example : (app worker (sample_record ∷ []) (sample_world [])).1.ready ≡ false
app-unready_example = app-unready worker (λ n. refl) (sample_record ∷ []) (sample_world []) refl

-- Kafka fails the fourth call, which is the fetch of the second record, and no other call.
abbrev flaky : Service → ℕ → Outcome
flaky kafka n = if n == 3 then refused (kafka_connection_error "coordinator is gone") else done
flaky db n = done
flaky timer n = done
flaky disk n = done
flaky http n = done
flaky smtp n = done

-- It reads no message as JSON.
abbrev flaky_worker : Worker
flaky_worker = record (sample_worker (record calm { outcome = flaky })) {
  libs = record sample_libs { loads = λ raw. none };
}

abbrev ready_world : World
ready_world = record (sample_world []) { ready = true }

abbrev one_rejected : World
one_rejected = (consume flaky_worker (sample_record ∷ []) ready_world).1

run_loop-kafka_error_example :
    let p = run_loop flaky_worker (sample_record ∷ sample_record ∷ []) ready_world in
    IsClosed flaky_worker one_rejected p × (p.1.ready ≡ true)
unfolding consume handle_message publish_raw send_dlq commit_message call continue
run_loop-kafka_error_example =
    run_loop-kafka_error flaky_worker (sample_record ∷ []) sample_record [] ready_world one_rejected
      (kafka_connection_error "coordinator is gone") refl refl tt refl refl

run_scheduler-IsSound_example : IsSound (run_scheduler api 60 2 campaign_world).1.campaigns
run_scheduler-IsSound_example =
    run_scheduler-IsSound api 60 2 campaign_world ((tt, tt), (omega arith, tt))

-- str() of an HTTPException.
http_exception_text : exc_text (http_exception 404 "Template not found") ≡ "404: Template not found"
http_exception_text = refl
