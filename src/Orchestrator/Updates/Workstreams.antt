-- ===== src/Orchestrator/Updates/Workstreams.antt =====
-- The status of a workstream after one of its tasks was written.
use rooben.State.Filesystem
use rooben.Orchestrator.Core.{Orchestrator}
