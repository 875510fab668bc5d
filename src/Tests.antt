-- ===== src/Tests.antt =====
-- The theorems at concrete inputs.
mod Samples
mod KvsRuns
mod ParserRuns
mod OperationsRuns
mod SessionRuns
mod JobRuns
mod ClientRuns
mod LockingRuns
mod SerialRuns
mod StageRuns
mod ThirdRuns
