-- ===== src/Health.antt =====
-- common/health_files.py: the marker file of a process that is ready, and the heartbeat file.
pub mod Beats
use notification_service_kaf.Prelude.{ℕ, zero, suc, some, true, false}
use notification_service_kaf.Runtime.{World, Worker, disk}
use notification_service_kaf.Runtime.Monad.{Action, Nothing, pure, catch, call, sleep, ◌>>◌}

abbrev pub marked : World → World
marked w = record w { ready = true }

abbrev pub unmarked : World → World
unmarked w = record w { ready = false }

unfoldable pub mark_ready : Worker → Action Nothing
mark_ready k = call k disk marked

unfoldable pub clear_ready : Worker → Action Nothing
clear_ready k = catch (call k disk unmarked) (λ e. pure tt)

-- time.time(), written to the heartbeat file.
abbrev pub stamped : World → World
stamped w = record w { heartbeat = some w.clock }

abbrev pub beat : Worker → Action Nothing
beat k = catch (call k disk stamped) (λ e. pure tt)

-- heartbeat_loop, over the rounds that it makes before its task is cancelled.
unfoldable pub heartbeat_loop : Worker → ℕ → ℕ → Action Nothing
heartbeat_loop k interval zero = pure tt
heartbeat_loop k interval (suc n) = beat k >> (sleep k interval >> heartbeat_loop k interval n)
