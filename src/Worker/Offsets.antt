-- ===== src/Worker/Offsets.antt =====
-- The offsets that the consumer commits: at-least-once delivery over a stream of records.
use notification_service_kaf.Prelude.{
  ℕ, suc, ◌≡◌, ◌≢◌, ◌⊎◌, inl, inr, refl, sym, ap, subst, ◌∙◌, List, [], ◌∷◌, ◌++◌, Option, some,
  Bool, true, false, if◌then◌else◌,
}
use notification_service_kaf.Runtime.{
  runtime_error, World, Worker, Outcome, done, refused, lost, kafka,
}
use notification_service_kaf.Runtime.Monad.{
  Action, Nothing, Result, ok, raised, pure, ◌>>◌, raise, continue, tick, call, finish,
}
use notification_service_kaf.Worker.Consumer.{
  Record, handle_message, commit_message, commit_position, fetch, consume, handle_and_commit,
}
use notification_service_kaf.Worker.Messages.{
  OnlyTrue, handle_message-offsets, handle_message-OnlyTrue,
}

-- The offset that is committed after these records.
abbrev pub last_commit : Option ℕ → List Record → Option ℕ
last_commit c [] = c
last_commit c (m ∷ ms) = last_commit (some (suc m.offset)) ms

-- The records were fetched in turn, and handling each of them returned before its commit.
pub data Run (k : Worker) : World → List Record → World → Type 0 where
  idle : (w : World) → Run k w [] w
  handled :
      (m : Record) (ms : List Record) (w u v x : World)
      → call k kafka (fetch m) w ≡ (ok tt, u)
      → handle_message k m u ≡ (ok true, v)
      → Run k (commit_message k v).1 ms x
      → Run k w (m ∷ ms) x

-- The committed offset is that of records that were handled: those before it. If the loop returns,
-- these are all records.
pub record IsAtLeastOnce (k : Worker) (msgs : List Record) (w : World) (p : Result Nothing × World)
    : Type 0 where
  pub handled_records : List Record
  pub rest : List Record
  pub split : msgs ≡ handled_records ++ rest
  pub last : World
  pub run : Run k w handled_records last
  pub committed : p.1.committed ≡ last_commit w.committed handled_records
  pub complete : (p.0 ≢ ok tt) ⊎ (rest ≡ [])

module _ (k : Worker) where
  -- A commit has its effect, or it fails with none.
  abbrev Commits : World → Result Nothing × World → Type 0
  Commits v c =
      ((c.1.committed ≡ some v.position) × (c.1.stopped ≡ v.stopped))
      ⊎ ((c.0 ≢ ok tt) × (c.1.committed ≡ v.committed))

  called :
      (o : Outcome) (v u : World)
      → u.position ≡ v.position
      → u.stopped ≡ v.stopped
      → u.committed ≡ v.committed
      → Commits v (finish o u (commit_position u))
  called done v u p s c = inl (ap some p, s)
  called (refused e) v u p s c = inr ((λ x. cc), c)
  called (lost e) v u p s c = inl (ap some p, s)

  commit_message-Commits : (v : World) → Commits v (commit_message k v)
  unfolding commit_message continue call
  commit_message-Commits v = go v.consumer_open
    where
      go :
          (b : Bool)
          → Commits v (
              (if b
                  then call k kafka commit_position
                  else raise (runtime_error "Kafka consumer is not initialized"))
                v)
      go true = called (k.env.outcome kafka v.calls) v (tick k v) refl refl refl
      go false = inr ((λ x. cc), refl)

  -- Nothing more is committed.
  none_handled :
      (m : Record) (ms : List Record) (w : World) (p : Result Nothing × World)
      → p.1.committed ≡ w.committed
      → p.0 ≢ ok tt
      → IsAtLeastOnce k (m ∷ ms) w p
  none_handled m ms w p e n = record {
    handled_records = [];
    rest = m ∷ ms;
    split = refl;
    last = w;
    run = idle w;
    committed = e;
    complete = inl n;
  }

  module _ (m : Record) (ms : List Record) (w u : World)
      (fetched : call k kafka (fetch m) w ≡ (ok tt, u))
      (later : (x : World) → x.stopped ≡ false → IsAtLeastOnce k ms x (consume k ms x)) where
    after_commit :
        (v : World) (c : Result Nothing × World)
        → handle_message k m u ≡ (ok true, v)
        → commit_message k v ≡ c
        → v.stopped ≡ false
        → v.position ≡ suc m.offset
        → v.committed ≡ w.committed
        → Commits v c
        → IsAtLeastOnce k (m ∷ ms) w (continue (λ x. consume k ms) c)
    unfolding continue
    after_commit v (ok y, x) h e s p q (inl (done_, same)) =
        let ih = later x (same ∙ s) in
        record {
          handled_records = m ∷ ih.handled_records;
          rest = ih.rest;
          split = ap (λ l. m ∷ l) ih.split;
          last = ih.last;
          run = handled m ih.handled_records w u v ih.last fetched h (
              subst (λ (z : Result Nothing × World). Run k z.1 ih.handled_records ih.last) (sym e)
                ih.run);
          committed = ih.committed ∙ ap (λ z. last_commit z ih.handled_records) (done_ ∙ ap some p);
          complete = ih.complete;
        }
    after_commit v (ok y, x) h e s p q (inr (n, same)) = absurd (n refl)
    after_commit v (raised y, x) h e s p q (inl (done_, same)) = record {
      handled_records = m ∷ [];
      rest = ms;
      split = refl;
      last = (commit_message k v).1;
      run = handled m [] w u v _ fetched h (idle _);
      committed = done_ ∙ ap some p;
      complete = inl (λ f. cc);
    }
    after_commit v (raised y, x) h e s p q (inr (n, same)) =
        none_handled m ms w _ (same ∙ q) (λ f. cc)

    after_message :
        (r : Result Bool × World)
        → handle_message k m u ≡ r
        → OnlyTrue r.0
        → r.1.stopped ≡ false
        → r.1.position ≡ suc m.offset
        → r.1.committed ≡ w.committed
        → IsAtLeastOnce k (m ∷ ms) w (
            continue
              (λ x. consume k ms)
              (continue (λ b. if b then commit_message k else pure tt) r))
    unfolding continue
    after_message (ok true, v) h t s p q =
        after_commit v (commit_message k v) h refl s p q (commit_message-Commits v)
    after_message (ok false, v) h t s p q = absurd (cc)
    after_message (raised e, v) h t s p q = none_handled m ms w _ q (λ f. cc)

  -- Whatever the fetch does, it commits nothing; where it succeeds, the position is past the record.
  abbrev Fetches : Record → World → Result Nothing × World → Type 0
  Fetches m w p =
      (p.1.stopped ≡ w.stopped)
      × (p.1.committed ≡ w.committed)
      × (p.0 ≡ ok tt → p.1.position ≡ suc m.offset)

  fetch-Fetches : (m : Record) (w : World) → Fetches m w (call k kafka (fetch m) w)
  unfolding call
  fetch-Fetches m w = go (k.env.outcome kafka w.calls)
    where
      go : (o : Outcome) → Fetches m w (finish o (tick k w) (fetch m (tick k w)))
      go done = (refl, refl, (λ e. refl))
      go (refused x) = (refl, refl, (λ e. cc))
      go (lost x) = (refl, refl, (λ e. cc))

  unstopped :
      (P : Result Nothing × World → Type 0) (b : Bool) (m n : Action Nothing) (u : World)
      → b ≡ false
      → P (n u)
      → P ((if b then m else n) u)
  unstopped P true m n u e p = absurd (cc)
  unstopped P false m n u e p = p

  after_fetch :
      (m : Record) (ms : List Record) (w : World) (p : Result Nothing × World)
      → call k kafka (fetch m) w ≡ p
      → Fetches m w p
      → w.stopped ≡ false
      → ((x : World) → x.stopped ≡ false → IsAtLeastOnce k ms x (consume k ms x))
      → IsAtLeastOnce k (m ∷ ms) w (
          continue
            (λ x v. (if v.stopped then pure tt else (handle_and_commit k m >> consume k ms)) v)
            p)
  unfolding continue
  after_fetch m ms w (ok x, u) e (s, c, q) running later =
      let same = handle_message-offsets k m u in
      unstopped (IsAtLeastOnce k (m ∷ ms) w) u.stopped _ _ u (s ∙ running) (
        after_message m ms w u e later (handle_message k m u) refl (handle_message-OnlyTrue k m u)
          (ap (λ (z : Option ℕ × ℕ × Bool × Bool). z.2) same ∙ s ∙ running)
          (ap (λ (z : Option ℕ × ℕ × Bool × Bool). z.1) same ∙ q refl)
          (ap (λ (z : Option ℕ × ℕ × Bool × Bool). z.0) same ∙ c))
  after_fetch m ms w (raised y, u) e (s, c, q) running later =
      none_handled m ms w (raised y, u) c (λ f. cc)

  -- Over any stream of records and whatever the calls of the services do, the offset that a running
  -- consumer leaves committed is that of the last record of an initial part of the stream, each of
  -- which was handled and returned before its commit; if the loop returns, that part is the whole
  -- stream.
  pub consume-IsAtLeastOnce :
      (msgs : List Record) (w : World)
      → w.stopped ≡ false
      → IsAtLeastOnce k msgs w (consume k msgs w)
  unfolding consume continue
  consume-IsAtLeastOnce [] w s = record {
    handled_records = [];
    rest = [];
    split = refl;
    last = w;
    run = idle w;
    committed = refl;
    complete = inr refl;
  }
  consume-IsAtLeastOnce (m ∷ ms) w s =
      after_fetch m ms w (call k kafka (fetch m) w) refl (fetch-Fetches m w) s
        (consume-IsAtLeastOnce ms)
