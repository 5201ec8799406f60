-- ===== src/Tests.antt =====
-- Runs of the theorems on concrete inputs.
mod CobsRuns
mod FrameRuns
mod StreamRuns
mod ImageRuns
mod ProxyRuns
mod SlotRuns
mod LauncherRuns
mod BrokerRuns
mod DownloadRuns
mod GateRuns
