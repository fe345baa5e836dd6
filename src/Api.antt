-- ===== src/Api.antt =====
-- notifications_api/: the event service, the job publisher and the template endpoints.
pub mod Publisher
pub mod Events
pub mod Templates
pub mod Endpoints
pub mod Answers
pub mod Starting
pub mod Lifespan
pub mod Serving
