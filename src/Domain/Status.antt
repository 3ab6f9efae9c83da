-- ===== src/Domain/Status.antt =====
-- src/rooben/domain.py: the status enums, and the tests that the code makes on them.
use rooben.Prelude.{Bool, true, false}

pub data TaskStatus : Type 0 where
  pending blocked ready in_progress verifying passed failed skipped cancelled : TaskStatus

pub data WorkstreamStatus : Type 0 where
  pending in_progress completed failed cancelled : WorkstreamStatus

pub data WorkflowStatus : Type 0 where
  pending planning in_progress completed failed cancelled : WorkflowStatus

-- status == TaskStatus.PENDING, and so on
unfoldable pub is_pending : TaskStatus → Bool
is_pending TaskStatus.pending = true
is_pending _ = false

unfoldable pub is_in_progress : TaskStatus → Bool
is_in_progress TaskStatus.in_progress = true
is_in_progress _ = false

unfoldable pub is_verifying : TaskStatus → Bool
is_verifying TaskStatus.verifying = true
is_verifying _ = false

unfoldable pub is_passed : TaskStatus → Bool
is_passed TaskStatus.passed = true
is_passed _ = false

unfoldable pub is_failed : TaskStatus → Bool
is_failed TaskStatus.failed = true
is_failed _ = false

unfoldable pub is_cancelled : TaskStatus → Bool
is_cancelled TaskStatus.cancelled = true
is_cancelled _ = false

-- Task.is_terminal, on the status
unfoldable pub is_terminal : TaskStatus → Bool
is_terminal TaskStatus.passed = true
is_terminal TaskStatus.failed = true
is_terminal TaskStatus.skipped = true
is_terminal TaskStatus.cancelled = true
is_terminal _ = false

-- ws.status != new_status
unfoldable pub same_workstream_status : WorkstreamStatus → WorkstreamStatus → Bool
same_workstream_status WorkstreamStatus.pending WorkstreamStatus.pending = true
same_workstream_status WorkstreamStatus.in_progress WorkstreamStatus.in_progress = true
same_workstream_status WorkstreamStatus.completed WorkstreamStatus.completed = true
same_workstream_status WorkstreamStatus.failed WorkstreamStatus.failed = true
same_workstream_status WorkstreamStatus.cancelled WorkstreamStatus.cancelled = true
same_workstream_status _ _ = false
