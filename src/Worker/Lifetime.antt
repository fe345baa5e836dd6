-- ===== src/Worker/Lifetime.antt =====
-- What the worker's process leaves behind when it ends, and when its consumer ends.
use notification_service_kaf.Prelude.{
  ℕ, ◌≡◌, refl, ap, ◌∙◌, List, Bool, true, false, if◌then◌else◌, zero, suc,
}
use notification_service_kaf.Runtime.{Exc, World, Worker, done, db, kafka, http, disk}
use notification_service_kaf.Runtime.Monad.{
  Action, Nothing, Result, ok, raised, ◌>>◌, continue, recover, call, tick, ensure, sleep,
}
use notification_service_kaf.Runtime.Views.{overridden-world, continue-view, call-view}
use notification_service_kaf.Runtime.Retrying.{retrying, recover_if}
use notification_service_kaf.Health.{mark_ready, clear_ready, unmarked}
use notification_service_kaf.Worker.Reliable.{call-done}
use notification_service_kaf.Worker.Startup.{
  create_db_pool, create_kafka_producer, create_http_client, close_producer,
}
use notification_service_kaf.Worker.Consumer.{Record}
use notification_service_kaf.Worker.Main.{app, serve, shut_down, close_http, close_pool}

abbrev pub ready_of : World → Bool
ready_of w = w.ready

recover_if-view :
    {A : Type 0} (p : Exc → Bool) (h : Exc → Action A) (u : World) (q : Result A × World)
    → ready_of q.1 ≡ ready_of u
    → ((x : Exc) (w : World) → ready_of (h x w).1 ≡ ready_of w)
    → ready_of (recover_if p h q).1 ≡ ready_of u
unfolding recover_if
recover_if-view p h u (ok a, w) e f = e
recover_if-view p h u (raised x, w) e f = go (p x)
  where
    go : (b : Bool) → ready_of (if b then h x w else (raised x, w)).1 ≡ ready_of u
    go true = f x w ∙ e
    go false = e

retrying-view :
    {A : Type 0} (p : Exc → Bool) (attempt : Action A) (give_up : Exc → Action A)
    (pause : Action Nothing)
    → ((w : World) → ready_of (attempt w).1 ≡ ready_of w)
    → ((x : Exc) (w : World) → ready_of (give_up x w).1 ≡ ready_of w)
    → ((w : World) → ready_of (pause w).1 ≡ ready_of w)
    → (left : ℕ) (w : World) → ready_of (retrying p attempt give_up pause left w).1 ≡ ready_of w
unfolding retrying
retrying-view p m g s hm hg hs zero w = recover_if-view p g w (m w) (hm w) hg
retrying-view p m g s hm hg hs (suc left) w =
    recover_if-view p _ w (m w) (hm w)
      λ x v. continue-view ready_of _ v (s v) (hs v) (λ y u. retrying-view p m g s hm hg hs left u)

module _ (k : Worker) where
  create_db_pool-ready : (w : World) → ready_of (create_db_pool k w).1 ≡ ready_of w
  unfolding create_db_pool sleep
  create_db_pool-ready =
      retrying-view _ _ _ _ (λ w. call-view ready_of k (λ v. refl) _ _ w (λ v. refl)) (λ x w. refl)
        (λ w. call-view ready_of k (λ v. refl) _ _ w (λ v. refl)) 9

  create_kafka_producer-ready : (w : World) → ready_of (create_kafka_producer k w).1 ≡ ready_of w
  unfolding create_kafka_producer sleep
  create_kafka_producer-ready =
      retrying-view _ _ _ _ (λ w. call-view ready_of k (λ v. refl) _ _ w (λ v. refl))
        (λ x w.
          continue-view ready_of _ w _ (call-view ready_of k (λ v. refl) _ _ w (λ v. refl))
            (λ y v. refl))
        (λ w. call-view ready_of k (λ v. refl) _ _ w (λ v. refl)) 9

  module _ (disk_done : (n : ℕ) → k.env.outcome disk n ≡ done) where
    clear_ready-done : (w : World) → clear_ready k w ≡ (ok tt, unmarked (tick k w))
    unfolding clear_ready recover
    clear_ready-done w = rw (call-done k disk unmarked w (disk_done w.calls))

    -- Steps that end with no marker, one after the other.
    unready_then :
        {A B : Type 0} (f : A → Action B) (p : Result A × World)
        → ready_of p.1 ≡ false
        → ((a : A) (w : World) → ready_of w ≡ false → ready_of (f a w).1 ≡ false)
        → ready_of (continue f p).1 ≡ false
    unfolding continue
    unready_then f (ok a, w) e h = h a w e
    unready_then f (raised x, w) e h = e

    closing :
        (w : World)
        → ready_of
            ((call k http close_http >> (call k kafka close_producer >> call k db close_pool)) w).1
          ≡ ready_of w
    closing w =
        continue-view ready_of _ w (call k http close_http w)
          (call-view ready_of k (λ v. refl) _ _ w (λ v. refl))
          λ x v.
            continue-view ready_of _ v (call k kafka close_producer v)
              (call-view ready_of k (λ u. refl) _ _ v (λ u. refl))
              λ y u. call-view ready_of k (λ z. refl) _ _ u (λ z. refl)

    -- After the block `finally` there is no marker, however its other calls end.
    shut_down-unready : (w : World) → ready_of (shut_down k w).1 ≡ false
    unfolding shut_down
    shut_down-unready w =
        unready_then _ (clear_ready k w)
          (ap (λ (p : Result Nothing × World). p.1.ready) (clear_ready-done w))
          λ x v e. closing v ∙ e

    served :
        (msgs : List Record) (w : World)
        → ready_of (ensure (serve k msgs) (shut_down k) w).1 ≡ false
    served msgs w =
        ap ready_of (overridden-world (serve k msgs w).0 (shut_down k (serve k msgs w).1))
        ∙ shut_down-unready (serve k msgs w).1

    mark-then :
        (msgs : List Record) (w : World)
        → ready_of (continue (λ x. ensure (serve k msgs) (shut_down k)) (mark_ready k w)).1 ≡ false
    unfolding mark_ready continue
    mark-then msgs w = rw (call-done k disk _ w (disk_done w.calls)) (served msgs _)

    -- Where the disk works, a worker process that starts without its ready marker ends without it,
    -- however its start, its consumer and the closing of its resources end.
    pub app-unready :
        (msgs : List Record) (w : World) → w.ready ≡ false → (app k msgs w).1.ready ≡ false
    unfolding app create_http_client
    app-unready msgs w h = unready_then _ _ h λ ds w₁ h₁.
        unready_then _ _ (ap (λ (p : Result Nothing × World). p.1.ready) (clear_ready-done w₁))
          λ x w₂ h₂. unready_then _ _ (create_db_pool-ready w₂ ∙ h₂) λ y w₃ h₃.
            unready_then _ _ (create_kafka_producer-ready w₃ ∙ h₃)
              λ z w₄ h₄. unready_then _ _ h₄ λ a w₅ h₅. mark-then msgs w₅
