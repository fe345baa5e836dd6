-- ===== src/Health/Beats.antt =====
-- The heartbeat of a process.
use notification_service_kaf.Prelude.{ℕ, zero, suc, ◌+◌, ◌*◌, ◌≤◌, ◌≡◌, refl, arith}
use notification_service_kaf.Runtime.{
  IsCaught, World, Worker, Outcome, done, refused, lost, disk, timer,
}
use notification_service_kaf.Runtime.Monad.{
  Result, Nothing, ok, raised, pure, continue, recover, call, finish, tick, sleep, ◌>>◌,
}
use notification_service_kaf.Health.{stamped, beat, heartbeat_loop}
use notification_service_kaf.Worker.Reliable.{call-done}

-- It returned, and all that it did took at least this time.
abbrev pub IsBeating : ℕ → World → Result Nothing × World → Type 0
IsBeating time w p = (p.0 ≡ ok tt) × (w.clock + time ≤ p.1.clock)

module _ (k : Worker) (disk_caught : (n : ℕ) → IsCaught (k.env.outcome disk n))
    (timer_done : (n : ℕ) → k.env.outcome timer n ≡ done) where
  written :
      (o : Outcome) (w v : World)
      → IsCaught o
      → w.clock ≤ v.clock
      → IsBeating 0 w (recover (λ e. pure tt) (finish o v (stamped v)))
  unfolding recover
  written done w v h l = (refl, omega arith)
  written (refused e) w v h l = rw h (refl, omega arith)
  written (lost e) w v h l = rw h (refl, omega arith)

  beat-IsBeating : (w : World) → IsBeating 0 w (beat k w)
  unfolding call
  beat-IsBeating w =
      written (k.env.outcome disk w.calls) w (tick k w) (disk_caught w.calls) (omega arith)

  round :
      (interval n time : ℕ) (w : World) (p : Result Nothing × World)
      → IsBeating 0 w p
      → ((v : World) → IsBeating time v (heartbeat_loop k interval n v))
      → IsBeating
          (interval + time)
          w
          (continue (λ x. sleep k interval >> heartbeat_loop k interval n) p)
  unfolding continue sleep
  round interval n time w (ok x, v) (e, l) h =
      let u = record v { clock = v.clock + k.env.elapse v.calls + interval; calls = suc v.calls } in
      let (a, b) = h u in rw (call-done k timer _ v (timer_done v.calls)) (a, omega (arith, b, l))
  round interval n time w (raised x, v) (e, l) h = absurd (cc)

  -- Where the disk is not cancelled and the timers work, the heartbeat goes on whether the file can
  -- be written or not: any number of rounds returns, each after its interval.
  heartbeat_loop-IsBeating :
      (interval n : ℕ) (w : World) → IsBeating (n * interval) w (heartbeat_loop k interval n w)
  unfolding heartbeat_loop
  heartbeat_loop-IsBeating interval zero w = (refl, omega arith)
  heartbeat_loop-IsBeating interval (suc n) w =
      let (a, b) =
        round interval n (n * interval) w (beat k w) (beat-IsBeating w)
          (heartbeat_loop-IsBeating interval n) in
      (a, omega (arith, b))
