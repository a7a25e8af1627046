-- ===== src/Tests.antt =====
-- Tests of the definitions on concrete inputs, and the theorems at inputs that meet their hypotheses.
mod Samples
mod CacheRuns
mod StoreRuns
mod HostsRuns
mod ServerRuns
mod OptionsRuns
mod ResolvRuns
mod ReportRuns
mod ThreadRuns
mod LaunchRuns
