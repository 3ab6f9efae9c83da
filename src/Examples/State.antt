-- ===== src/Examples/State.antt =====
-- The theorem on the backend, at a save and an update of the sample workflow.
use rooben.Prelude.{◌≡◌, List, [], ◌∷◌}
use rooben.Domain.Status.{TaskStatus}
use rooben.State.Filesystem.{load_state}
use rooben.State.Protocol.{Write, saved, task_updated, promise_all, write_all}
use rooben.State.Protocol.Refinement.{filesystem, filesystem-refines}
use rooben.Samples.{task, state_with}

abbrev writes : List Write
writes = saved (state_with TaskStatus.pending) ∷ task_updated (task "a" [] TaskStatus.passed) ∷ []

filesystem-refines_example :
    load_state "wf" (write_all filesystem writes [])
    ≡ promise_all writes (λ k. load_state k []) "wf"
filesystem-refines_example = filesystem-refines writes [] "wf"
