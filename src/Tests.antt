-- ===== src/Tests.antt =====
-- Runs of the model on small inputs, and the theorems applied to them.
pub mod Sample
mod ChainRuns
mod PoolRuns
mod ClientRuns
mod ApiRuns
mod ConfigRuns
mod StatsRuns
mod WebRuns
mod DetectRuns
mod GpuRuns
mod MinerRuns
mod BrowserRuns
mod ReportRuns
