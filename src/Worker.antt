-- ===== src/Worker.antt =====
-- worker/: the Kafka consumer, the job processor and what they call.
pub mod Repo
pub mod Auth
pub mod Senders
pub mod Dlq
pub mod Status
pub mod Timing
pub mod Retry
pub mod Processor
pub mod Consumer
pub mod Step
pub mod Quiet
pub mod Sends
pub mod Attempt
pub mod Reliable
pub mod Outcome
pub mod Refused
pub mod Terminal
pub mod Claiming
pub mod Atomic
pub mod Exclusive
pub mod Contended
pub mod Lost
pub mod Rejected
pub mod Expired
pub mod Pause
pub mod Delivery
pub mod Returns
pub mod Accounted
pub mod Overwritten
pub mod Outage
pub mod Offsets
pub mod Stream
pub mod Restarts
pub mod Messages
pub mod Startup
pub mod Connecting
pub mod Main
pub mod Lifetime
pub mod Silent
