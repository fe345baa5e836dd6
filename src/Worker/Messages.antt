-- ===== src/Worker/Messages.antt =====
-- _handle_message of consumer/kafka_consumer.py: it leaves the offsets alone, and returns True or raises.
use notification_service_kaf.Prelude.{
  ℕ, ◌≡◌, String, inl, inr, refl, List, Option, none, some, Bool, true, arith, Bool-cases,
}
use notification_service_kaf.Schemas.{NotificationJob, Json}
use notification_service_kaf.Runtime.{Exc, is_exception, World, Worker}
use notification_service_kaf.Runtime.Monad.{Action, Result, ok, raised, continue, recover}
use notification_service_kaf.Runtime.Views.{continue-view, call-view, recover-view}
use notification_service_kaf.Worker.Dlq.{publish_job, publish_raw, send_dlq}
use notification_service_kaf.Worker.Processor.{handle_job}
use notification_service_kaf.Worker.Consumer.{
  Record, handle_message, read_value, decoded, validated, process,
}
use notification_service_kaf.Worker.Step.Invariant.{handle_job-Frames}

-- What handling a record leaves alone.
abbrev pub offsets : World → Option ℕ × ℕ × Bool × Bool
offsets w = (w.committed, w.position, w.stopped, w.ready)

-- handle_message returns True or raises.
abbrev pub OnlyTrue : Result Bool → Type 0
OnlyTrue (ok b) = b ≡ true
OnlyTrue (raised e) = Unit {0}

module _ (k : Worker) where
  publish_job-offsets :
      (j : NotificationJob) (e : Option String) (w : World)
      → offsets (publish_job k j e w).1 ≡ offsets w
  unfolding publish_job send_dlq
  publish_job-offsets j e w =
      continue-view offsets _ w _ refl λ now v. call-view offsets k (λ u. refl) _ _ v (λ u. refl)

  publish_raw-offsets :
      (raw : Option (List ℕ)) (e : Option String) (w : World)
      → offsets (publish_raw k raw e w).1 ≡ offsets w
  unfolding publish_raw send_dlq
  publish_raw-offsets none e w = refl
  publish_raw-offsets (some raw) e w =
      continue-view offsets _ w _ refl λ now v. call-view offsets k (λ u. refl) _ _ v (λ u. refl)

  handle_job-offsets : (j : NotificationJob) (w : World) → offsets (handle_job k j w).1 ≡ offsets w
  handle_job-offsets j w = let f = handle_job-Frames k j w in ground (arith, f.2, f.3, f.5, f.6)

  process-offsets : (j : NotificationJob) (w : World) → offsets (process k j w).1 ≡ offsets w
  process-offsets j w =
      recover-view offsets _ w _
        (continue-view offsets _ w (handle_job k j w) (handle_job-offsets j w) (λ x v. refl))
        (λ e v. continue-view offsets _ v _ (publish_job-offsets j _ v) (λ x u. refl))

  validated-offsets :
      (raw : List ℕ) (o : Option NotificationJob) (w : World)
      → offsets (validated k raw o w).1 ≡ offsets w
  validated-offsets raw none w =
      continue-view offsets _ w _ (publish_raw-offsets (some raw) _ w) (λ x u. refl)
  validated-offsets raw (some j) w = process-offsets j w

  decoded-offsets :
      (raw : List ℕ) (o : Option Json) (w : World) → offsets (decoded k raw o w).1 ≡ offsets w
  decoded-offsets raw none w =
      continue-view offsets _ w _ (publish_raw-offsets (some raw) _ w) (λ x u. refl)
  decoded-offsets raw (some payload) w = validated-offsets raw (k.libs.validate payload) w

  read_value-offsets : (o : Option (List ℕ)) (w : World) → offsets (read_value k o w).1 ≡ offsets w
  read_value-offsets none w =
      continue-view offsets _ w _ (publish_raw-offsets none _ w) (λ x u. refl)
  read_value-offsets (some raw) w = decoded-offsets raw (k.libs.loads raw) w

  pub handle_message-offsets :
      (m : Record) (w : World) → offsets (handle_message k m w).1 ≡ offsets w
  unfolding handle_message
  handle_message-offsets m w = read_value-offsets m.raw_value w

  ends_true :
      {A : Type 0} (p : Result A × World) → OnlyTrue (continue {B = Bool} (λ x w. (ok true, w)) p).0
  unfolding continue
  ends_true (ok a, w) = refl
  ends_true (raised e, w) = tt

  recovers_true :
      (h : Exc → Action Bool) (p : Result Bool × World)
      → OnlyTrue p.0
      → ((e : Exc) (w : World) → OnlyTrue (h e w).0)
      → OnlyTrue (recover h p).0
  unfolding recover
  recovers_true h (ok b, w) o f = o
  recovers_true h (raised e, w) o f = elim (Bool-cases (is_exception e)) [
    | inl x ↦ rw x (f e w)
    | inr x ↦ rw x tt
  ]

  validated-OnlyTrue :
      (raw : List ℕ) (o : Option NotificationJob) (w : World) → OnlyTrue (validated k raw o w).0
  validated-OnlyTrue raw none w = ends_true _
  validated-OnlyTrue raw (some j) w =
      recovers_true _ _ (ends_true (handle_job k j w)) (λ e v. ends_true _)

  decoded-OnlyTrue : (raw : List ℕ) (o : Option Json) (w : World) → OnlyTrue (decoded k raw o w).0
  decoded-OnlyTrue raw none w = ends_true _
  decoded-OnlyTrue raw (some payload) w = validated-OnlyTrue raw (k.libs.validate payload) w

  read_value-OnlyTrue : (o : Option (List ℕ)) (w : World) → OnlyTrue (read_value k o w).0
  read_value-OnlyTrue none w = ends_true _
  read_value-OnlyTrue (some raw) w = decoded-OnlyTrue raw (k.libs.loads raw) w

  pub handle_message-OnlyTrue : (m : Record) (w : World) → OnlyTrue (handle_message k m w).0
  unfolding handle_message
  handle_message-OnlyTrue m w = read_value-OnlyTrue m.raw_value w
