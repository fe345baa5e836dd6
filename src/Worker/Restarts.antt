-- ===== src/Worker/Restarts.antt =====
-- The consumer over crashes and restarts: each life starts from the committed offset.
use notification_service_kaf.Prelude.{
  ◌≢◌, ◌⊎◌, ℕ, suc, ◌≤◌, ◌≡◌, refl, sym, ap, subst, ◌∙◌, List, [], ◌∷◌, ◌++◌, Option, none, some,
  false, leb, le→leb, lt→leb, if◌then◌else◌, arith,
}
use mathlib.Core.List.{append_assoc}
use notification_service_kaf.Runtime.{World, Worker}
use notification_service_kaf.Runtime.Monad.{Result, ok, Nothing}
use notification_service_kaf.Worker.Consumer.{Record, consume}
use notification_service_kaf.Worker.Offsets.{last_commit, IsAtLeastOnce}
use notification_service_kaf.Worker.Accounted.{AllAccounted, consume-AllAccounted}

abbrev pub from_offset : ℕ → List Record → List Record
from_offset c [] = []
from_offset c (m ∷ ms) = let rest = from_offset c ms in if leb c m.offset then m ∷ rest else rest

-- What Kafka hands out to a consumer whose group has committed this offset. Without one it starts
-- after the records that are there, which is the default of auto_offset_reset.
abbrev pub unread : Option ℕ → List Record → List Record
unread none ms = []
unread (some c) ms = from_offset c ms

-- The offsets of the records increase, from the committed one.
abbrev pub IsStream : ℕ → List Record → Type 0
IsStream c [] = Unit {0}
IsStream c (m ∷ ms) = (c ≤ m.offset) × IsStream (suc m.offset) ms

-- The lives of consumers of one topic, one after another: each starts from the offset that the last
-- one left committed, and ends as it may.
pub data Lives (ms : List Record) (u : World) : Result Nothing × World → Type 0 where
  first : (k : Worker) → Lives ms u (consume k (unread u.committed ms) u)
  restarted :
      (k : Worker) (p : Result Nothing × World) (w : World)
      → Lives ms u p
      → w.committed ≡ p.1.committed
      → w.stopped ≡ false
      → Lives ms u (consume k (unread w.committed ms) w)

-- The records that the lives handled, one life after another: each record of a life was fetched and
-- handled in turn by its consumer, from the world in which this life started, before its commit, and
-- is accounted for by the worlds between which it was handled.
abbrev pub IsServed :
    {ms : List Record} {u : World} {p : Result Nothing × World}
    → Lives ms u p
    → List Record
    → Type 0
IsServed {ms = ms} {u = u} (first k) hs =
    (a : IsAtLeastOnce k (unread u.committed ms) u (consume k (unread u.committed ms) u))
    × AllAccounted k a.run
    × (hs ≡ a.handled_records)
IsServed {ms = ms} (restarted k p w l d s) hs =
    (before : List Record) × IsServed l before
    × (a : IsAtLeastOnce k (unread w.committed ms) w (consume k (unread w.committed ms) w))
    × AllAccounted k a.run
    × (hs ≡ before ++ a.handled_records)

-- The records before the committed offset are those that the lives handled; these are all records if
-- the last life returned.
pub record IsKept {ms : List Record} {u : World} {p : Result Nothing × World} (l : Lives ms u p)
    (c : Option ℕ) : Type 0 where
  pub handled_records : List Record
  pub rest : List Record
  pub split : ms ≡ handled_records ++ rest
  pub served : IsServed l handled_records
  pub committed : p.1.committed ≡ last_commit c handled_records
  pub complete : (p.0 ≢ ok tt) ⊎ (rest ≡ [])

from_offset-later : (c d : ℕ) (ms : List Record) → d ≤ c → IsStream c ms → from_offset d ms ≡ ms
from_offset-later c d [] h s = refl
from_offset-later c d (m ∷ ms) h (a, s) =
    rw (le→leb d m.offset (omega arith))
      (ap (λ l. m ∷ l) (from_offset-later (suc m.offset) d ms (omega arith) s))

last_commit-le :
    (c : ℕ) (hs rest : List Record)
    → IsStream c (hs ++ rest)
    → (d : ℕ) × (last_commit (some c) hs ≡ some d) × (c ≤ d)
last_commit-le c [] rest s = (c, refl, omega arith)
last_commit-le c (m ∷ hs) rest (a, s) =
    let (d, e, l) = last_commit-le (suc m.offset) hs rest s in (d, e, omega arith)

unread-last_commit :
    (c : ℕ) (hs rest : List Record)
    → IsStream c (hs ++ rest)
    → unread (last_commit (some c) hs) (hs ++ rest) ≡ rest
unread-last_commit c [] rest s = from_offset-later c c rest (omega arith) s
unread-last_commit c (m ∷ hs) rest (a, s) =
    let (d, e, l) = last_commit-le (suc m.offset) hs rest s in
    let ih = unread-last_commit (suc m.offset) hs rest s in
    rw (e, lt→leb d m.offset (omega arith)) (subst (λ z. unread z (hs ++ rest) ≡ rest) e ih)

last_commit-append :
    (c : Option ℕ) (hs gs : List Record)
    → last_commit (last_commit c hs) gs ≡ last_commit c (hs ++ gs)
last_commit-append c [] gs = refl
last_commit-append c (m ∷ hs) gs = last_commit-append (some (suc m.offset)) hs gs

-- One more life, after which these records were handled.
record IsLived (k : Worker) (ms hs : List Record) (c : ℕ) (w : World) (left : List Record)
    : Type 0 where
  run : IsAtLeastOnce k left w (consume k left w)
  accounted : AllAccounted k run.run
  split : ms ≡ (hs ++ run.handled_records) ++ run.rest
  committed : (consume k left w).1.committed ≡ last_commit (some c) (hs ++ run.handled_records)

lived :
    (k : Worker) (ms hs rest : List Record) (c : ℕ) (w : World)
    → ms ≡ hs ++ rest
    → w.committed ≡ last_commit (some c) hs
    → w.stopped ≡ false
    → IsStream c ms
    → IsLived k ms hs c w (unread w.committed ms)
lived k ms hs rest c w e d s i =
    let left : unread w.committed ms ≡ rest =
      rw (d, e) (unread-last_commit c hs rest (subst (IsStream c) e i)) in
    let (q, a) = consume-AllAccounted k rest w s in
    rw left (record {
      run = q;
      accounted = a;
      split = e ∙ ap (λ l. hs ++ l) q.split ∙ sym (append_assoc hs q.handled_records q.rest);
      committed =
          q.committed
          ∙ ap (λ z. last_commit z q.handled_records) d
          ∙ last_commit-append (some c) hs q.handled_records;
    })

-- Over any number of crashes and restarts of consumers, by any workers and whatever the calls of
-- their services do, where the first consumer is running and its group has committed an offset,
-- each later one is running and starts from the offset that the one before left committed, and the
-- offsets of the stream increase from the first: the records before the offset that is committed at
-- the end are those that the lives handled, one life after another. Each record of a life was
-- fetched and handled in turn by its consumer, in a run from the world in which this life started,
-- before its commit, and is accounted for by the worlds between which it was handled. If the last
-- consumer's loop returns, these are all records of the stream.
pub Lives-IsKept :
    (ms : List Record) (c : ℕ) (u : World) (p : Result Nothing × World) (l : Lives ms u p)
    → u.stopped ≡ false
    → u.committed ≡ some c
    → IsStream c ms
    → IsKept l (some c)
Lives-IsKept ms c u p (first k) s e i =
    let q = lived k ms [] ms c u refl e s i in
    record {
      handled_records = q.run.handled_records;
      rest = q.run.rest;
      split = q.split;
      served = (q.run, q.accounted, refl);
      committed = q.committed;
      complete = q.run.complete;
    }
Lives-IsKept ms c u p (restarted k o w l d t) s e i =
    let b = Lives-IsKept ms c u o l s e i in
    let q = lived k ms b.handled_records b.rest c w b.split (d ∙ b.committed) t i in
    record {
      handled_records = b.handled_records ++ q.run.handled_records;
      rest = q.run.rest;
      split = q.split;
      served = (b.handled_records, b.served, q.run, q.accounted, refl);
      committed = q.committed;
      complete = q.run.complete;
    }
