-- ===== src/Agents/Scratchpad/Compact.antt =====
-- The bound of the compact summary.
use rooben.Prelude.{
  ℕ, ◌+◌, ◌-◌, ◌≤◌, ◌<◌, ◌≡◌, ◌⊎◌, String, str_append, List, [], ◌∷◌, ◌++◌, text_length, prefix,
}

-- The text with the sections behind it.
abbrev followed_by : String → List String → String
followed_by result [] = result
followed_by result (s ∷ ss) = followed_by (str_append result s) ss

-- How the text goes on behind the whole sections: it ends with the last section, or the next one does
-- not fit and is cut, if more than fifty characters are left, or left out.
abbrev EndsWith : ℕ → String → List String → String → Type 0
EndsWith max_chars whole [] text = text ≡ whole
EndsWith max_chars whole (s ∷ later) text =
    (max_chars < text_length (str_append whole s))
    × (((50 < max_chars - text_length whole)
          × (text
              ≡ str_append whole (str_append (prefix (max_chars - text_length whole - 3) s) "...")))
        ⊎ ((max_chars ≤ text_length whole + 50) × (text ≡ whole)))

-- The text is made of the first sections, as many as fit, and of what `EndsWith` says of the next one.
abbrev pub IsCutOf : ℕ → String → List String → String → Type 0
IsCutOf max_chars start ss text =
    (front : List String) × (later : List String) × (ss ≡ front ++ later)
    × EndsWith max_chars (followed_by start front) later text
