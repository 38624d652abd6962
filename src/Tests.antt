-- ===== src/Tests.antt =====
-- The properties at concrete inputs, and runs of the definitions.
mod CacheRuns
mod FlightRuns
mod StoreRuns
mod ServerRuns
mod RequestRuns
mod ConfigRuns
mod ArchiveRuns
mod ChainRuns
mod CommandRuns
