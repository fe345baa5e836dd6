-- ===== src/Tests.antt =====
-- Concrete inputs: the theorems at them, and runs of the code.
pub mod Samples
pub mod Runs
pub mod WorkerTests
pub mod StreamTests
pub mod PipelineTests
pub mod ServiceRuns
pub mod ApiTests
pub mod ServiceTests
pub mod LifeTests
