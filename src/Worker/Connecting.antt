-- ===== src/Worker/Connecting.antt =====
-- How the loops of worker/startup.py end.
use notification_service_kaf.Prelude.{
  ℕ, zero, suc, ◌+◌, ◌*◌, ◌≤◌, ◌≡◌, ◌⊎◌, inl, inr, refl, subst, true, false, arith, String,
}
use notification_service_kaf.Runtime.{
  kafka_connection_error, World, Worker, Outcome, done, refused, kafka, timer, db,
}
use notification_service_kaf.Runtime.Monad.{
  Nothing, Result, ok, raised, raise, continue, call, finish, tick, sleep, ◌>>◌,
}
use notification_service_kaf.Runtime.Retrying.{
  retrying, recover_if, Failures, retrying-first_success, retrying-gives_up,
}
use notification_service_kaf.Worker.Repo.{seconds}
use notification_service_kaf.Worker.Reliable.{call-done}
use notification_service_kaf.Worker.Startup.{
  create_db_pool, create_kafka_producer, open_pool, open_producer, close_producer,
  is_kafka_connection, give_up_kafka, producer_attempts, is_connection_failure,
}

-- Kafka accepts a call, or it cannot be reached.
abbrev pub IsReachable : Outcome → Type 0
IsReachable o = (o ≡ done) ⊎ ((m : String) × (o ≡ refused (kafka_connection_error m)))

-- The producer is started, or the start was given up with a connection error and it is closed. No
-- more than `n` calls were made.
pub record IsConnected (n : ℕ) (w : World) (p : Result Nothing × World) : Type 0 where
  pub ending :
      ((p.0 ≡ ok tt) × (p.1.producer_open ≡ true))
      ⊎ ((m : String) × (p.0 ≡ raised (kafka_connection_error m)) × (p.1.producer_open ≡ false))
  pub bounded : p.1.calls ≤ w.calls + n

module _ (k : Worker) (reachable : (n : ℕ) → IsReachable (k.env.outcome kafka n))
    (timer_done : (n : ℕ) → k.env.outcome timer n ≡ done) where
  given_up :
      (o : Outcome) (m : String) (v : World)
      → IsReachable o
      → v.producer_open ≡ false
      → IsConnected 0 v (
          continue
            (λ (x : Unit). raise {A = Nothing} (kafka_connection_error m))
            (finish o v (close_producer v)))
  unfolding continue
  given_up o m v (inl e) f = rw e (record { ending = inr (m, refl, refl); bounded = omega arith })
  given_up o m v (inr (n, e)) f = rw e (record { ending = inr (n, refl, f); bounded = omega arith })

  slept :
      (left : ℕ) (w v : World)
      → v.calls ≡ suc w.calls
      → ((u : World)
          → u.producer_open ≡ false
          → IsConnected (2 * left + 2) u (producer_attempts k left u))
      → v.producer_open ≡ false
      → IsConnected (2 * suc left + 2) w ((sleep k (seconds 1) >> producer_attempts k left) v)
  unfolding continue sleep
  slept left w v c h f =
      let g = h _ f in
      rw (call-done k timer _ v (timer_done v.calls))
        (record { ending = g.ending; bounded = omega (arith, g.bounded) })

  producer_attempts-IsConnected :
      (left : ℕ) (w : World)
      → w.producer_open ≡ false
      → IsConnected (2 * left + 2) w (producer_attempts k left w)
  unfolding retrying recover_if call
  producer_attempts-IsConnected zero w f = go (k.env.outcome kafka w.calls) (reachable w.calls)
    where
      go :
          (o : Outcome)
          → IsReachable o
          → IsConnected 2 w (
              recover_if is_kafka_connection
                (give_up_kafka k)
                (finish o (tick k w) (open_producer (tick k w))))
      go o (inl e) = rw e (record { ending = inl (refl, refl); bounded = omega arith })
      go o (inr (m, e)) =
          let g =
            given_up (k.env.outcome kafka (tick k w).calls) m (tick k (tick k w))
              (reachable (tick k w).calls) f in
          rw e (record { ending = g.ending; bounded = omega (arith, g.bounded) })
  producer_attempts-IsConnected (suc left) w f =
      go (producer_attempts-IsConnected left) (k.env.outcome kafka w.calls) (reachable w.calls)
    where
      go :
          ((u : World)
            → u.producer_open ≡ false
            → IsConnected (2 * left + 2) u (producer_attempts k left u))
          → (o : Outcome) → IsReachable o
          → IsConnected (2 * suc left + 2) w (
              recover_if is_kafka_connection
                (λ e. sleep k (seconds 1) >> producer_attempts k left)
                (finish o (tick k w) (open_producer (tick k w))))
      go ih o (inl e) = rw e (record { ending = inl (refl, refl); bounded = omega arith })
      go ih o (inr (m, e)) = rw e (slept left w (tick k w) (omega arith) ih f)

  -- Where Kafka accepts a call or cannot be reached and the timers work, create_kafka_producer ends
  -- after at most twenty calls, with the producer started, or with a connection error and the
  -- producer not started.
  create_kafka_producer-IsConnected :
      (w : World) → w.producer_open ≡ false → IsConnected 20 w (create_kafka_producer k w)
  unfolding create_kafka_producer
  create_kafka_producer-IsConnected w f = producer_attempts-IsConnected 9 w f

-- The attempt that ends the loop: one that succeeds, or a tenth that fails.
abbrev pub IsLast : ℕ → Result Nothing → Type 0
IsLast n (ok x) = n ≤ 9
IsLast n (raised e) = (n ≡ 9) × (is_connection_failure e ≡ true)

-- After any number of connection failures with a pause after each, create_db_pool ends with its
-- next attempt if this succeeds and is one of the first ten, or fails with such a failure and is
-- the tenth: with the pool, or with the tenth exception.
create_db_pool-IsLast :
    (k : Worker) (n : ℕ) (w x y : World) (r : Result Nothing)
    → Failures is_connection_failure (call k db open_pool) raise (sleep k (seconds 1)) n w x
    → call k db open_pool x ≡ (r, y)
    → IsLast n r
    → create_db_pool k w ≡ (r, y)
unfolding create_db_pool
create_db_pool-IsLast k n w x y (ok u) f e h = retrying-first_success _ _ _ _ n 9 w x y u h f e
create_db_pool-IsLast k n w x y (raised z) f e (h, c) =
    retrying-gives_up _ _ _ _ 9 z w x y
      (subst
        (λ m.
          Failures is_connection_failure (call k db open_pool) raise (sleep k (seconds 1)) m w x)
        h f)
      e c
