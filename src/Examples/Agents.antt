-- ===== src/Examples/Agents.antt =====
-- The theorem on the scratchpad, at a summary that is cut.
use rooben.Prelude.{◌≡◌, refl, true, some, [], text_length}
use rooben.Agents.Scratchpad.{
  ScratchpadAccumulator, record_file_write, record_file_read, record_tool_call, record_error,
  record_decision, to_compact_summary,
}

abbrev scratchpad : ScratchpadAccumulator
scratchpad = record_file_write 1 "a.py" "the entry point" (
    record_file_read 2 "b.py" (
      record_error 3 "not found" "created it" (
        record_tool_call 4 "fs" "read" "ok" (
          record_decision 5 "use a queue"
            (record { entries = []; workspace_dir = some "/tmp"; flushed = true })))))

-- The summary would be longer than a hundred characters; it is cut.
cut-summary : text_length (to_compact_summary (λ n. "1") (λ a b. b) 100 scratchpad) ≡ 100
unfolding to_compact_summary text_length record_file_write record_file_read record_error
    record_tool_call record_decision
cut-summary = refl
