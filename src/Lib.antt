-- ===== src/Lib.antt =====
-- A verification library for the notification service (src/notifications of the repository): an
-- API that turns events into jobs on a Kafka topic, a worker that consumes the jobs and delivers
-- them, and a scheduler that triggers campaigns. Postgres keeps the delivery state.
--
-- Which file models what:
--   Prelude, Text: shared names; str.strip, str.split and str.lower of Python.
--   Schemas: common/schemas/notification_enums.py and notification_job.py, the row classes of
--     db/models.py, and JSON values. A UUID is a number; an instant is a number of microseconds.
--   Deliveries: the table notification_delivery, with one pure function for each SQL statement of
--     worker/repositories/notification_delivery_repo.py; its children hold the table's laws.
--   Runtime: exceptions as values, the state that the worker acts on (World), its settings, and its
--     surroundings (Env). Runtime/Monad has the coroutines: an action takes the world to a result
--     and a world, and what was written before an exception stays written. Runtime/Trace,
--     Runtime/Views and Runtime/Ensures have the rules by which steps, frames, bounds and results
--     of a whole follow from those of its parts; Runtime/Retrying is the bounded loop of the starts.
--   Config: common/config.py, the defaults, the DSNs and the parsed retry delays; Delays is about
--     texts joined by commas.
--   Format: str.format, as worker/processor/job_processor.py renders templates; Raises is about
--     its exceptions.
--   Worker: worker/, a module for each file: Repo (repositories), Auth (auth/client.py), Senders,
--     Dlq (dlq/publisher.py), Status (processor/status_writer.py), Timing, Retry (retry_engine.py),
--     Processor (job_processor.py), Consumer (consumer/kafka_consumer.py). The other children hold
--     proofs: Step (the worker's changes as a step relation), Quiet and Sends (what is sent),
--     Reliable, Claiming and Outcome (runs in which the services answer), Refused and Terminal
--     (finished jobs), Lost (jobs that are dropped), Rejected (records that hold no job), Expired
--     (jobs whose expiry has passed), Pause, Attempt and Delivery (a job from its record to its
--     end), Stream (a stream of jobs), Returns and Accounted (why handle_job returns, and what
--     became of a record that is committed), Outage (jobs whose handling raises), Overwritten (a
--     stale read), Messages, Offsets and Restarts (what is committed, and what is read after a
--     crash), Atomic (the delivery table as a map), Exclusive and Contended (claims of several
--     workers). Startup and Main (worker/startup.py, worker/main.py) are the process; Connecting,
--     Lifetime and Silent hold the proofs about it.
--   Events, Campaigns: notifications_api/schemas/event.py; the table campaigns with the SQL of
--     campaign_scheduler/repositories/campaigns_repo.py and is_campaign_due. Campaigns/Limits has
--     the laws of the limits of runs, Campaigns/Marks those of marking several campaigns.
--   Api: Publisher (common/kafka.py), Events (notifications_api/services/notification_service.py
--     and api/v1/events.py), Templates (repositories/templates.py and api/v1/templates.py). Answers
--     and Starting hold the proofs on events and on the publisher's start; Endpoints and
--     the children of Templates (Keys, Replaced, RoundTrip, Lookup, Order, Pages) those on
--     templates. Lifespan (notifications_api/main.py) and Serving are about the API's process.
--   Scheduler: campaign_scheduler/service/scheduler_service.py, one tick of it, and Scheduler/Loop
--     (campaign_scheduler/startup.py and run_scheduler) the ticks of a process. Within and Lasting
--     are about the limits of runs, Tick about what a tick triggers, Runs about the scheduler
--     together with the API.
--   Health, Init: common/health_files.py; kafka_init.py and db_init.py.
--   Pipeline: the API and the worker together; Jobs has the jobs of a list of events, Stream their
--     ends.
--   Tests: sample data, runs of the code, and the theorems at concrete inputs.
--
-- How it is modelled. Every awaited call of a service (a statement of Postgres with the acquisition
-- of its connection, a Kafka publish, fetch or commit, an SMTP send, a timer) asks Env for its outcome,
-- by the number of the call: it succeeds, it raises with no effect, or it raises after its effect.
-- Time passes at each call by an amount that Env gives, and rows that an ORDER BY leaves tied come in
-- an order that Env gives to the query. Nothing is assumed of Env but where a theorem's hypotheses
-- say so; a cancellation is one of the exceptions, so a run may be cut off at any await. Libraries
-- that the code calls are the fields of Libs. The loops are structural (over the attempts that are
-- left, over the records), so no fuel is needed; Worker/Retry/Loop is about the source's while.
--
-- Not modelled: logging, the main() wrappers and signal handlers, the parsing
-- of HTTP requests, the filling of the settings from the environment, and the content of
-- json.dumps. Delays are whole microseconds. The worker's app(), the scheduler and the heartbeat
-- are run over the records, the ticks and the rounds that they get before they are stopped.
pub mod Prelude
pub mod Text
pub mod Schemas
pub mod Events
pub mod Campaigns
pub mod Deliveries
pub mod Runtime
pub mod Format
pub mod Config
pub mod Worker
pub mod Api
pub mod Scheduler
pub mod Health
pub mod Init
pub mod Pipeline
pub mod Tests
