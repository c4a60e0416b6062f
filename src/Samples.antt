-- ===== src/Samples.antt =====
-- Small databases and histories on which the definitions are run and the theorems applied.
pub mod Start
mod TaskRuns
mod ThreadRuns
mod Rules
mod ChannelRuns
mod PipelineRuns
mod RequestRuns
mod WorkerRuns
mod DaemonRuns
mod SettingRuns
mod DeliveryRuns
mod PageRuns
