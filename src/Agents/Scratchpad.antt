-- ===== src/Agents/Scratchpad.antt =====
-- src/rooben/agents/scratchpad.py. The texts of numbers and `os.path.join` are parameters.
pub mod Compact
use rooben.Prelude.{
  ℕ, ◌+◌, ◌-◌, Bool, true, false, cond, ltb, String, str_append, str_eq, Option, none, some, List,
  [], ◌∷◌, ◌++◌, map, keep, length, is_empty, text_length, prefix, join, concat,
}
use rooben.Domain.Models.{text_truthy}

pub record ScratchpadEntry : Type 0 where
  pub turn : ℕ
  pub category : String
  pub summary : String
  pub detail : String

pub record ScratchpadAccumulator : Type 0 where
  pub entries : List ScratchpadEntry
  pub workspace_dir : Option String
  pub flushed : Bool

-- self._entries.append(…)
unfoldable pub add_entry : ScratchpadEntry → ScratchpadAccumulator → ScratchpadAccumulator
add_entry e p = record p { entries = p.entries ++ e ∷ [] }

unfoldable pub record_file_write :
    ℕ → String → String → ScratchpadAccumulator → ScratchpadAccumulator
unfolding add_entry text_truthy concat
record_file_write turn path purpose p =
    add_entry
      (record {
        turn = turn;
        category = "file_write";
        summary = cond (text_truthy purpose) (concat (path ∷ " — " ∷ purpose ∷ [])) path;
        detail = "";
      })
      p

unfoldable pub record_file_read : ℕ → String → ScratchpadAccumulator → ScratchpadAccumulator
unfolding add_entry
record_file_read turn path p =
    add_entry (record { turn = turn; category = "file_read"; summary = path; detail = "" }) p

unfoldable pub record_tool_call :
    ℕ → String → String → String → ScratchpadAccumulator → ScratchpadAccumulator
unfolding add_entry concat
record_tool_call turn server tool outcome p =
    add_entry
      (record {
        turn = turn;
        category = "tool_call";
        summary = concat (server ∷ "/" ∷ tool ∷ []);
        detail = outcome;
      })
      p

unfoldable pub record_error : ℕ → String → String → ScratchpadAccumulator → ScratchpadAccumulator
unfolding add_entry prefix
record_error turn error resolution p =
    add_entry
      (record { turn = turn; category = "error"; summary = prefix 200 error; detail = resolution })
      p

unfoldable pub record_decision : ℕ → String → ScratchpadAccumulator → ScratchpadAccumulator
unfolding add_entry
record_decision turn rationale p =
    add_entry (record { turn = turn; category = "decision"; summary = rationale; detail = "" }) p

-- _by_category
unfoldable pub by_category : String → ScratchpadAccumulator → List ScratchpadEntry
by_category category p = keep (λ (e : ScratchpadEntry). str_eq e.category category) p.entries

-- max(turns) if turns else 0
unfoldable pub max_turn : List ScratchpadEntry → ℕ
max_turn [] = 0
max_turn (e ∷ es) = let rest = max_turn es in cond (ltb rest e.turn) e.turn rest

-- One section for the entries, if there are any.
unfoldable pub entry_section :
    String → (ScratchpadEntry → String) → List ScratchpadEntry → List String
unfolding join
entry_section title line es =
    cond (is_empty es) [] (join "\n" (concat ("\n\n## " ∷ title ∷ []) ∷ map line es) ∷ [])

-- The loop that puts the sections together.
unfoldable pub assemble : ℕ → String → List String → String
unfolding text_length prefix
assemble max_chars result [] = result
assemble max_chars result (s ∷ ss) =
    let candidate = str_append result s in
    let remaining = max_chars - text_length result in
    let rest = assemble max_chars candidate ss in
    cond (ltb max_chars (text_length candidate))
      (cond (ltb 50 remaining) (str_append result (str_append (prefix (remaining - 3) s) "..."))
        result)
      rest

module _ (show : ℕ → String) (path_join : String → String → String) where
  -- scratchpad_path
  unfoldable pub scratchpad_path : ScratchpadAccumulator → Option String
  unfolding text_truthy
  scratchpad_path p = elim p.workspace_dir [
    | none ↦ none
    | some dir ↦ cond (text_truthy dir) (some (path_join dir ".scratchpad.md")) none
  ]

  -- "- Turn 3: …", with a detail behind it, if there is one
  unfoldable pub turn_line : String → ScratchpadEntry → String
  unfolding concat text_truthy
  turn_line separator e = concat (
      "- Turn "
      ∷ show e.turn
      ∷ ": "
      ∷ e.summary
      ∷ cond (text_truthy e.detail) (separator ∷ e.detail ∷ []) [])

  unfoldable pub bare_turn_line : ScratchpadEntry → String
  unfolding concat
  bare_turn_line e = concat ("- Turn " ∷ show e.turn ∷ ": " ∷ e.summary ∷ [])

  unfoldable pub call_line : ScratchpadEntry → String
  unfolding concat text_truthy
  call_line e = concat ("- " ∷ e.summary ∷ cond (text_truthy e.detail) (": " ∷ e.detail ∷ []) [])

  unfoldable pub header : ScratchpadAccumulator → String
  unfolding concat by_category max_turn
  header p =
      let written = length (by_category "file_write" p) in
      concat (
        "[Conversation compacted — prior turns summarized]"
        ∷ "\n\n## Progress\nFiles created: "
        ∷ show written
        ∷ " | Tool calls: "
        ∷ show (written + (length (by_category "file_read" p) + length (by_category "tool_call" p)))
        ∷ " | Turns: "
        ∷ show (max_turn p.entries)
        ∷ [])

  unfoldable pub reference : ScratchpadAccumulator → List String
  unfolding scratchpad_path concat
  reference p = elim (scratchpad_path p) [
    | none ↦ []
    | some path ↦
        cond p.flushed
          (concat ("\n\nFull scratchpad: " ∷ path ∷ " (read_file to access)" ∷ []) ∷ []) []
  ]

  -- The sections in the order of their priority.
  unfoldable pub sections : ScratchpadAccumulator → List String
  unfolding header entry_section by_category bare_turn_line turn_line call_line reference concat
  sections p =
      header p
        ∷ entry_section "Files Written" (λ e. concat ("- " ∷ e.summary ∷ []))
            (by_category "file_write" p)
      ++ (entry_section "Key Decisions" bare_turn_line (by_category "decision" p)
          ++ (entry_section "Errors Resolved" (turn_line " → ") (by_category "error" p)
              ++ (entry_section "Tool Calls" call_line (by_category "tool_call" p) ++ reference p)))

  -- to_compact_summary
  unfoldable pub to_compact_summary : ℕ → ScratchpadAccumulator → String
  unfolding assemble sections
  to_compact_summary max_chars p = assemble max_chars "" (sections p)

  -- One heading of `to_markdown` with its lines.
  unfoldable pub markdown_part :
      String → (ScratchpadEntry → String) → List ScratchpadEntry → List String
  unfolding concat
  markdown_part title line es =
      cond (is_empty es) [] (concat ("## " ∷ title ∷ []) ∷ map line es ++ "" ∷ [])

  -- to_markdown
  unfoldable pub to_markdown : ScratchpadAccumulator → String
  unfolding markdown_part join by_category bare_turn_line turn_line
  to_markdown p = join "\n" (
      "# Agent Scratchpad"
        ∷ ""
        ∷ markdown_part "Files Written" bare_turn_line (by_category "file_write" p)
      ++ (markdown_part "Files Read" bare_turn_line (by_category "file_read" p)
          ++ (markdown_part "Key Decisions" bare_turn_line (by_category "decision" p)
              ++ (markdown_part "Errors" (turn_line " → ") (by_category "error" p)
                  ++ markdown_part "Tool Calls" (turn_line ": ") (by_category "tool_call" p)))))
