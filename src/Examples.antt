-- ===== src/Examples.antt =====
-- Runs of the model at concrete inputs, and the theorems at them.
mod DispatcherRuns
mod TrackerRuns
mod TickRuns
mod CacheRuns
mod ChannelRuns
mod ClientRuns
mod ConsumerRuns
mod ConfigRuns
mod DsnRuns
mod MigrationRuns
mod AdapterRuns
mod ServiceRuns
mod StartupRuns
mod OrderRuns
mod MetricsRuns
mod BlobRuns
