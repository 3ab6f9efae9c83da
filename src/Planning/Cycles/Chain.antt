-- ===== src/Planning/Cycles/Chain.antt =====
-- The gray nodes are a chain of edges that the parents lead back along.
use rooben.Prelude.{
  ℕ, zero, suc, ◌≤◌, ◌<◌, ◌≡◌, ◌≢◌, inl, inr, refl, sym, subst, ap, String, Option, some, List, [],
  ◌∷◌, ◌++◌, length, Memᴰ, mem-cons_cases, arith, str_eq, eq_iff, eq_refl, Bool-cases,
}
use rooben.Dict.{Dict, get, put}
use rooben.Dict.Laws.{get-put}
use rooben.Planning.Cycles.{successors, walk_back}

module _ (graph : Dict (List String)) where
  abbrev pub IsEdge : String → String → Type 0
  IsEdge a b = Memᴰ b (successors graph a)

  -- The node that was left last comes first.
  abbrev pub IsOrdered : List String → Type 0
  IsOrdered [] = Unit
  IsOrdered (n ∷ ns) = (¬ Memᴰ n ns) × ((b : String) → IsEdge n b → Memᴰ b ns) × IsOrdered ns

  abbrev pub IsChain : Dict (Option String) → List String → Type 0
  IsChain parent [] = Unit
  IsChain parent (n ∷ []) = Unit
  IsChain parent (n ∷ m ∷ ns) =
      (get parent n ≡ some (some m)) × IsEdge m n × IsChain parent (m ∷ ns)

  pub IsChain-tail :
      (parent : Dict (Option String)) (n : String) (ns : List String)
      → IsChain parent (n ∷ ns)
      → IsChain parent ns
  IsChain-tail parent n [] h = tt
  IsChain-tail parent n (m ∷ ns) h = h.2

  -- A parent of a node outside of the chain.
  pub IsChain-put :
      (parent : Dict (Option String)) (k : String) (v : Option String) (ns : List String)
      → ¬ Memᴰ k ns
      → IsChain parent ns
      → IsChain (put parent k v) ns
  IsChain-put parent k v [] away h = tt
  IsChain-put parent k v (n ∷ []) away h = tt
  IsChain-put parent k v (n ∷ m ∷ ns) away h =
      let other : k ≢ n = (λ e. away (Memᴰ.head e)) in
      (
        ground (arith, get-put parent k n v, eq_iff k n),
        h.1,
        IsChain-put parent k v (m ∷ ns) (λ i. away (Memᴰ.tail i)) h.2,
      )

  -- Each node has an edge from the one behind it.
  abbrev pub IsDown : List String → Type 0
  IsDown [] = Unit
  IsDown (b ∷ []) = Unit
  IsDown (b ∷ a ∷ ns) = IsEdge a b × IsDown (a ∷ ns)

  pub IsDown-cons :
      (b : String) (ns : List String) (a : String) (rest : List String)
      → ns ≡ a ∷ rest
      → IsEdge a b
      → IsDown ns
      → IsDown (b ∷ ns)
  IsDown-cons b ns a rest e edge =
      subst (λ l. IsDown l → IsDown (b ∷ l)) (sym e) (λ down. (edge, down))

  -- The walk back ends at the target with the nodes it passed, which lead down to the target.
  abbrev LeadsBack : ℕ → Dict (Option String) → String → String → Type 0
  LeadsBack steps parent target cur =
      (path : List String) × (walk_back steps parent target cur ≡ some path)
      × IsDown (path ++ target ∷ [])
      × ((rest : List String) × (path ++ target ∷ [] ≡ cur ∷ rest))

  walk_back_here :
      (steps : ℕ) (parent : Dict (Option String)) (target cur : String)
      → cur ≡ target
      → LeadsBack steps parent target cur
  unfolding walk_back
  walk_back_here zero parent target cur e =
      ([], rw (e, walk_back, eq_refl target) refl, tt, ([], ap (λ k. k ∷ []) (sym e)))
  walk_back_here (suc steps) parent target cur e =
      ([], rw (e, walk_back, eq_refl target) refl, tt, ([], ap (λ k. k ∷ []) (sym e)))

  -- The walk back from the end of a chain finds any node of it.
  pub walk_back-IsChain :
      (steps : ℕ) (parent : Dict (Option String)) (target cur : String) (ns : List String)
      → IsChain parent (cur ∷ ns)
      → Memᴰ target (cur ∷ ns)
      → length ns ≤ steps
      → LeadsBack steps parent target cur
  unfolding walk_back
  walk_back-IsChain steps parent target cur [] h m le = elim (mem-cons_cases m) [
    | inl here ↦ walk_back_here steps parent target cur (sym here)
    | inr later ↦ elim later [ ]
  ]
  walk_back-IsChain zero parent target cur (n ∷ ns) h m le = absurd (omega arith)
  walk_back-IsChain (suc steps) parent target cur (n ∷ ns) h m le =
      elim (Bool-cases (str_eq cur target)) [
        | inl here ↦ walk_back_here (suc steps) parent target cur ((eq_iff cur target).0 here)
        | inr apart ↦ elim (mem-cons_cases m) [
          | inl here ↦ absurd (ground (arith, eq_iff cur target))
          | inr later ↦
              let (path, e, down, (rest, begins)) =
                walk_back-IsChain steps parent target n ns h.2 later (omega arith) in
              (
                cur ∷ path,
                rw (walk_back, apart, h.0, e) refl,
                IsDown-cons cur (path ++ target ∷ []) n rest begins h.1 down,
                (path ++ target ∷ [], refl),
              )
        ]
      ]

  abbrev pub IsRankOf : (String → ℕ) → Type 0
  IsRankOf rank = (a b : String) → IsEdge a b → rank a < rank b

  abbrev pub IsCyclic : Type 0
  IsCyclic = (rank : String → ℕ) → ¬ IsRankOf rank

  rank-IsChain :
      (rank : String → ℕ) (parent : Dict (Option String)) (target cur : String) (ns : List String)
      → IsRankOf rank
      → IsChain parent (cur ∷ ns)
      → Memᴰ target (cur ∷ ns)
      → rank target ≤ rank cur
  rank-IsChain rank parent target cur [] ranks h m = elim (mem-cons_cases m) [
    | inl here ↦ rw here (omega arith)
    | inr later ↦ elim later [ ]
  ]
  rank-IsChain rank parent target cur (n ∷ ns) ranks h m = elim (mem-cons_cases m) [
    | inl here ↦ rw here (omega arith)
    | inr later ↦
        omega (arith, ranks n cur h.1, rank-IsChain rank parent target n ns ranks h.2 later)
  ]

  -- An edge back to the chain closes a cycle.
  pub chain-IsCyclic :
      (parent : Dict (Option String)) (target cur : String) (ns : List String)
      → IsChain parent (cur ∷ ns)
      → Memᴰ target (cur ∷ ns)
      → IsEdge cur target
      → IsCyclic
  chain-IsCyclic parent target cur ns h m edge rank ranks =
      omega (arith, ranks cur target edge, rank-IsChain rank parent target cur ns ranks h m)
