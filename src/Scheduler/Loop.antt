-- ===== src/Scheduler/Loop.antt =====
-- campaign_scheduler/startup.py, and run_scheduler of service/scheduler_service.py over the ticks that
-- it makes before it is stopped.
use notification_service_kaf.Prelude.{ℕ, zero, suc}
use notification_service_kaf.Runtime.{Worker, db, http}
use notification_service_kaf.Runtime.Monad.{Action, Nothing, pure, call, ensure, ◌>>◌}
use notification_service_kaf.Health.{mark_ready, clear_ready}
use notification_service_kaf.Scheduler.{process_tick}
use notification_service_kaf.Worker.Startup.{open_pool, create_http_client}
use notification_service_kaf.Worker.Main.{close_http, close_pool}

-- `while True`: that many ticks of it.
unfoldable pub ticks : Worker → ℕ → ℕ → Action Nothing
ticks k poll_interval zero = pure tt
ticks k poll_interval (suc n) = process_tick k poll_interval >> ticks k poll_interval n

unfoldable pub release : Worker → Action Nothing
release k = do clear_ready k; call k http close_http; call k db close_pool

unfoldable pub run_scheduler : Worker → ℕ → ℕ → Action Nothing
run_scheduler k poll_interval n = do
  clear_ready k
  call k db open_pool
  create_http_client
  mark_ready k
  ensure (ticks k poll_interval n) (release k)
