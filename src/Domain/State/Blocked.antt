-- ===== src/Domain/State/Blocked.antt =====
-- `_is_blocked` of src/rooben/domain.py decides the relation "some chain of dependencies that have
-- not passed leads to a failed task", whatever its memo already holds.
use rooben.Prelude.{
  ℕ, zero, suc, ◌<◌, String, ◌≡◌, refl, Bool, true, false, none, some, List, [], ◌∷◌, Memᴰ, arith,
  str_eq, eq_iff, All, Bool-cases, Option-cases, inl, inr, subst, mem-cons_cases, All-of_each,
  All-at,
}
use rooben.Dict.{Dict, get, put}
use rooben.Dict.Laws.{get-put}
use rooben.Domain.Status.{is_failed, is_passed}
use rooben.Domain.Models.{Task}
use rooben.Domain.State.{Search, any_blocked, remember, blocked_task, is_blocked}

-- The specification, with no memo and no order of visits.
pub data Blocked (tasks : Dict Task) : String → Type 0 where
  by_failure :
      {id : String} (t : Task)
      → get tasks id ≡ some t
      → is_failed t.status ≡ true
      → Blocked tasks id
  by_dependency :
      {id : String} (t : Task) (dep : String)
      → get tasks id ≡ some t
      → is_passed t.status ≡ false
      → Memᴰ dep t.depends_on
      → Blocked tasks dep
      → Blocked tasks id

-- The dependency graph has no cycle: each dependency stands below its task.
abbrev pub IsRanked : (String → ℕ) → Dict Task → Type 0
IsRanked rank tasks =
    (id : String) (t : Task) → get tasks id ≡ some t → All (λ d. rank d < rank id) t.depends_on

abbrev pub Verdict : Bool → Type 0 → Type 0
Verdict true P = P
Verdict false P = ¬ P

module _ (tasks : Dict Task) where
  abbrev pub IsCacheRight : Dict Bool → Type 0
  IsCacheRight cache =
      (id : String) (b : Bool) → get cache id ≡ some b → Verdict b (Blocked tasks id)

  abbrev pub Decides : Search → Type 0 → Type 0
  Decides r P =
      (b : Bool) × (cache : Dict Bool) × (r ≡ some (b, cache)) × Verdict b P × IsCacheRight cache

  abbrev BlockedDep : List String → Type 0
  BlockedDep deps = (dep : String) × Memᴰ dep deps × Blocked tasks dep

  put-IsCacheRight :
      (cache : Dict Bool) (id : String) (b : Bool)
      → IsCacheRight cache
      → Verdict b (Blocked tasks id)
      → IsCacheRight (put cache id b)
  put-IsCacheRight cache id b old v j c h = elim (Bool-cases (str_eq id j)) [
    | inl same ↦
        let written : b ≡ c = cc (get-put cache id j b) in
        let at_key : id ≡ j = (eq_iff id j).0 same in
        subst (λ k. Verdict c (Blocked tasks k)) at_key
          (subst (λ x. Verdict x (Blocked tasks id)) written v)
    | inr other ↦ old j c (cc (get-put cache id j b))
  ]

  BlockedDep-cons :
      (dep : String) (deps : List String) (b : Bool)
      → ¬ Blocked tasks dep
      → Verdict b (BlockedDep deps)
      → Verdict b (BlockedDep (dep ∷ deps))
  BlockedDep-cons dep deps true free (d, m, h) = (d, Memᴰ.tail m, h)
  BlockedDep-cons dep deps false free none_left = λ (d, m, h). elim (mem-cons_cases m) [
    | inl same ↦ free (subst (Blocked tasks) same h)
    | inr later ↦ none_left (d, later, h)
  ]

  any_blocked-decides :
      (rec : String → Dict Bool → Search) (deps : List String) (cache : Dict Bool)
      → All (λ d. (c : Dict Bool) → IsCacheRight c → Decides (rec d c) (Blocked tasks d)) deps
      → IsCacheRight cache
      → Decides (any_blocked rec deps cache) (BlockedDep deps)
  unfolding any_blocked
  any_blocked-decides rec [] cache h right = (false, cache, refl, (λ (d, m, _). elim m [ ]), right)
  any_blocked-decides rec (dep ∷ deps) cache h right =
      go (h.0 cache right) (any_blocked-decides rec deps)
    where
      go :
          Decides (rec dep cache) (Blocked tasks dep)
          → ((c : Dict Bool)
              → All
                  (λ d. (c : Dict Bool) → IsCacheRight c → Decides (rec d c) (Blocked tasks d))
                  deps
              → IsCacheRight c
              → Decides (any_blocked rec deps c) (BlockedDep deps))
          → Decides (any_blocked rec (dep ∷ deps) cache) (BlockedDep (dep ∷ deps))
      go (true, c, e, v, r) ih = (true, c, rw (e, any_blocked), (dep, Memᴰ.head refl, v), r)
      go (false, c, e, v, r) ih =
          let (b, c', e', v', r') = ih c h.1 r in
          (b, c', rw (e, any_blocked) e', BlockedDep-cons dep deps b v v', r')

  -- What the rest of the call needs to know of the body behind the memo.
  remember-decides :
      (id : String) (r : Search) (P : Type 0)
      → (P → Blocked tasks id)
      → (Blocked tasks id → P)
      → Decides r P
      → Decides (remember id r) (Blocked tasks id)
  unfolding remember
  remember-decides id r P to from (true, c, e, v, right) =
      (true, put c id true, rw e, to v, put-IsCacheRight c id true right (to v))
  remember-decides id r P to from (false, c, e, v, right) = (
    false,
    put c id false,
    rw e,
    (λ h. v (from h)),
    put-IsCacheRight c id false right (λ h. v (from h)),
  )

  module _ (id : String) (t : Task) (at_id : get tasks id ≡ some t) where
    Blocked-status :
        is_failed t.status ≡ false
        → Blocked tasks id
        → (is_passed t.status ≡ false) × BlockedDep t.depends_on
    Blocked-status going (by_failure u e failed) = let same : u ≡ t = cc in absurd (cc)
    Blocked-status going (by_dependency u dep e waits m h) =
        let same : u ≡ t = cc in
        subst (λ (w : Task). (is_passed w.status ≡ false) × BlockedDep w.depends_on) same
          (waits, (dep, m, h))

    blocked_task-decides :
        (rec : String → Dict Bool → Search) (cache : Dict Bool)
        → All
            (λ d. (c : Dict Bool) → IsCacheRight c → Decides (rec d c) (Blocked tasks d))
            t.depends_on
        → IsCacheRight cache
        → Decides (blocked_task rec t id cache) (Blocked tasks id)
    unfolding blocked_task
    blocked_task-decides rec cache h right = elim (Bool-cases (is_failed t.status)) [
      | inl failed ↦ rw failed (
          remember-decides id (some (true, cache)) Unit (λ _. by_failure t at_id failed) (λ _. tt)
            (true, cache, refl, tt, right))
      | inr going ↦ elim (Bool-cases (is_passed t.status)) [
        | inl passed ↦
            rw (going, passed)
              (remember-decides id (some (false, cache)) ⊥ absurd
                (λ b. cc (Blocked-status going b).0) (false, cache, refl, (λ x. x), right))
        | inr waits ↦
            rw (going, waits)
              (remember-decides id (any_blocked rec t.depends_on cache) (BlockedDep t.depends_on)
                (λ (dep, m, b). by_dependency t dep at_id waits m b)
                (λ b. (Blocked-status going b).1)
                (any_blocked-decides rec t.depends_on cache h right))
      ]
    ]

  Blocked-present : (id : String) → get tasks id ≡ none → ¬ Blocked tasks id
  Blocked-present id absent (by_failure t e _) = cc
  Blocked-present id absent (by_dependency t dep e _ _ _) = cc

  module _ (rank : String → ℕ) (ranked : IsRanked rank tasks) where
    -- With the rank of the task below the fuel the search ends, and its answer is right.
    pub is_blocked-decides :
        (fuel : ℕ) (id : String) (cache : Dict Bool)
        → rank id < fuel
        → IsCacheRight cache
        → Decides (is_blocked fuel tasks id cache) (Blocked tasks id)
    unfolding is_blocked
    is_blocked-decides zero id cache lt right = absurd (omega arith)
    is_blocked-decides (suc fuel) id cache lt right = elim (Option-cases (get cache id)) [
      | inr (b, known) ↦ (b, cache, rw (known, is_blocked), right id b known, right)
      | inl unknown ↦ elim (Option-cases (get tasks id)) [
        | inl absent ↦
            (false, cache, rw (unknown, absent, is_blocked), Blocked-present id absent, right)
        | inr (t, at_id) ↦
            let (b, c, e, v, r) =
              blocked_task-decides id t at_id (is_blocked fuel tasks) cache
                (All-of_each _ t.depends_on λ d m c right'.
                  is_blocked-decides fuel d c
                    (omega
                      (arith, All-at (λ x. rank x < rank id) t.depends_on (ranked id t at_id) m))
                    right')
                right in
            (b, c, rw (unknown, at_id, is_blocked) e, v, r)
      ]
    ]
