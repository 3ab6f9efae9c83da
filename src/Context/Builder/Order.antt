-- ===== src/Context/Builder/Order.antt =====
-- The order of the sections of a prompt, and what the budget does to each of them.
use rooben.Prelude.{
  ℕ, ◌+◌, ◌-◌, ◌*◌, ◌/◌, ◌≤◌, ◌≡◌, refl, sym, subst, inl, inr, Bool, false, ltb, leb, ◌==◌, List,
  [], ◌∷◌, keep, prefix, str_append, arith, All, All-at, All-of_each, Bool-cases,
}
use rooben.Context.Sections.{Section, estimated_tokens}
use rooben.Context.Builder.{ContextConfig, insert_section, sort_sections, truncated, fit}

-- No section has a lower priority number than one in front of it.
abbrev pub IsSorted : List Section → Type 0
IsSorted [] = Unit
IsSorted (s ∷ ss) = All (λ (t : Section). s.priority ≤ t.priority) ss × IsSorted ss

-- s.priority == k
abbrev pub has_priority : ℕ → Section → Bool
has_priority k s = s.priority == k

-- The second list has the sections of the first in their order, each whole, cut to a beginning, or left
-- out.
pub data IsKept : List Section → List Section → Type 0 where
  at_end : IsKept [] []
  whole : {s : Section} {ss kept : List Section} → IsKept ss kept → IsKept (s ∷ ss) (s ∷ kept)
  cut :
      {s : Section} {ss kept : List Section} (n : ℕ)
      → IsKept ss kept
      → IsKept (s ∷ ss) (
          record s { content = str_append (prefix n s.content) "\n\n[truncated]"; required = false }
          ∷ kept)
  left_out : {s : Section} {ss kept : List Section} → IsKept ss kept → IsKept (s ∷ ss) kept

module _ (P : Section → Type 0) where
  insert_section-All :
      (s : Section) (ss : List Section) → P s → All P ss → All P (insert_section s ss)
  unfolding insert_section
  insert_section-All s [] p h = (p, tt)
  insert_section-All s (t ∷ ts) p h = elim (Bool-cases (leb s.priority t.priority)) [
    | inl before ↦ rw (insert_section, before) (p, h)
    | inr behind ↦ rw (insert_section, behind) (h.0, insert_section-All s ts p h.1)
  ]

  pub sort_sections-All : (ss : List Section) → All P ss → All P (sort_sections ss)
  unfolding sort_sections
  sort_sections-All [] h = tt
  sort_sections-All (s ∷ ss) h =
      insert_section-All s (sort_sections ss) h.0 (sort_sections-All ss h.1)

insert_section-IsSorted :
    (s : Section) (ss : List Section) → IsSorted ss → IsSorted (insert_section s ss)
unfolding insert_section
insert_section-IsSorted s [] h = (tt, tt)
insert_section-IsSorted s (t ∷ ts) h = elim (Bool-cases (leb s.priority t.priority)) [
  | inl before ↦
      let le : s.priority ≤ t.priority = ground arith in
      let later =
        All-of_each (λ (u : Section). s.priority ≤ u.priority) ts
          (λ u m. omega (arith, le, All-at (λ (x : Section). t.priority ≤ x.priority) ts h.0 m)) in
      rw (insert_section, before) ((le, later), h)
  | inr behind ↦
      let le : t.priority ≤ s.priority = ground arith in
      rw (insert_section, behind)
        (
          insert_section-All (λ (u : Section). t.priority ≤ u.priority) s ts le h.0,
          insert_section-IsSorted s ts h.1,
        )
]

pub sort_sections-IsSorted : (ss : List Section) → IsSorted (sort_sections ss)
unfolding sort_sections
sort_sections-IsSorted [] = tt
sort_sections-IsSorted (s ∷ ss) =
    insert_section-IsSorted s (sort_sections ss) (sort_sections-IsSorted ss)

keep-insert_section :
    (k : ℕ) (s : Section) (ss : List Section)
    → keep (has_priority k) (insert_section s ss) ≡ keep (has_priority k) (s ∷ ss)
unfolding insert_section
keep-insert_section k s [] = refl
keep-insert_section k s (t ∷ ts) = elim (Bool-cases (leb s.priority t.priority)) [
  | inl before ↦ rw (insert_section, before) refl
  | inr behind ↦
      rw (insert_section, behind, keep-insert_section k s ts)
        (elim (Bool-cases (s.priority == k)) [
          | inl mine ↦ let other : (t.priority == k) ≡ false = ground arith in rw (mine, other) refl
          | inr other ↦ rw other refl
        ])
]

-- The sections of one priority stay, in their order: the sort loses none and is stable.
pub keep-sort_sections :
    (k : ℕ) (ss : List Section)
    → keep (has_priority k) (sort_sections ss) ≡ keep (has_priority k) ss
unfolding sort_sections
keep-sort_sections k [] = refl
keep-sort_sections k (s ∷ ss) =
    rw (keep-insert_section k s (sort_sections ss), keep-sort_sections k ss) refl

IsKept-of_eq : {ss kept kept' : List Section} → kept ≡ kept' → IsKept ss kept' → IsKept ss kept
IsKept-of_eq {ss} e h = subst (IsKept ss) (sym e) h

pub fit-IsKept :
    (config : ContextConfig) (budget used : ℕ) (ss : List Section)
    → IsKept ss (fit config budget used ss)
unfolding fit truncated
fit-IsKept config budget used [] = at_end
fit-IsKept config budget used (s ∷ ss) =
    let room = (budget - used) * config.chars_per_token / 1000 in
    let skipped = left_out (fit-IsKept config budget used ss) in
    let taken = whole (fit-IsKept config budget (used + estimated_tokens s) ss) in
    let begun =
      cut room (fit-IsKept config budget (used + estimated_tokens (truncated room s)) ss) in
    elim (Bool-cases s.required) [
      | inl required ↦ IsKept-of_eq (ground arith) taken
      | inr free ↦ elim (Bool-cases (leb budget used)) [
        | inl full ↦ IsKept-of_eq (ground arith) skipped
        | inr left ↦ elim (Bool-cases (leb (estimated_tokens s) (budget - used))) [
          | inl fits ↦ IsKept-of_eq (ground arith) taken
          | inr large ↦ elim (Bool-cases (ltb 50 room)) [
            | inl worth ↦ IsKept-of_eq (ground arith) begun
            | inr small ↦ IsKept-of_eq (ground arith) skipped
          ]
        ]
      ]
    ]

pub IsKept-same : (ss : List Section) → IsKept ss ss
IsKept-same [] = at_end
IsKept-same (s ∷ ss) = whole (IsKept-same ss)
