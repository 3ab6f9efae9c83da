-- ===== src/Planning/Cycles/Acyclic.antt =====
-- The answer of `_detect_cycle`: the search always has enough fuel, and it finds a cycle exactly if no
-- rank puts every task above its dependencies.
use rooben.Prelude.{
  ℕ, suc, ◌+◌, ◌≤◌, ◌<◌, ◌≡◌, refl, ap, String, true, false, Option, none, some, List, [], ◌∷◌,
  length, map, count-le-length, is_empty, Memᴰ, mem-cons_cases, mem-map, arith, inl, inr, All,
  All-of_each, All-at,
}
use rooben.Dict.{Dict, get, put, values}
use rooben.Domain.Models.{Task}
use rooben.Planning.Cycles.{
  white, Dfs, clear, cycle, successors, graph_of, by_id, dfs_each, detect_cycle,
}
use rooben.Planning.Cycles.Chain.{IsEdge, IsOrdered, IsRankOf}
use rooben.Planning.Cycles.Order.{is_white, whites, IsSearch}
use rooben.Planning.Cycles.Search.{After, Visit-cases, dfs_each-After}
use rooben.Planning.Cycles.ById.{get-by_id, get-by_id_cases}
use rooben.Planning.Cycles.Ring.{IsRing, IsRing-of_loop}
use rooben.Planning.Cycles.Graph.{mem_of_graph_of, mem-graph_of}
use rooben.Planning.Cycles.Place.{place, place-le-length, place-IsOrdered}

-- Every task lies above its dependencies.
abbrev pub IsAbove : (String → ℕ) → List Task → Type 0
IsAbove rank = All (λ t. All (λ d. rank d < rank t.id) t.depends_on)

IsAbove-IsRankOf :
    (rank : String → ℕ) (ts : List Task) → IsAbove rank ts → IsRankOf (graph_of ts []) rank
unfolding successors get
IsAbove-IsRankOf rank ts above a b edge = elim (mem_of_graph_of ts [] a b edge) [
  | inl (t, m, same, dep) ↦ rw same (
      All-at (λ d. rank d < rank t.id) t.depends_on
        (All-at (λ (u : Task). All (λ d. rank d < rank u.id) u.depends_on) ts above m) dep)
  | inr no_edge ↦ elim no_edge [ ]
]

-- The start of the search.
length-put :
    {A : Type 0} (d : Dict A) (k : String) (v : A)
    → length (values (put d k v)) ≤ suc (length (values d))
unfolding put values
length-put [] k v = omega arith
length-put ((j, u) ∷ d) k v = ground (arith, length-put d k v)

length-by_id :
    {A : Type 0} (f : Task → A) (ts : List Task) (d : Dict A)
    → length (values (by_id f ts d)) ≤ length ts + length (values d)
unfolding by_id
length-by_id f [] d = omega arith
length-by_id f (t ∷ ts) d =
    omega (arith, length-by_id f ts (put d t.id (f t)), length-put d t.id (f t))

mem-map_of_mem :
    {A B : Type 0} (f : A → B) (xs : List A) {a : A} → Memᴰ a xs → Memᴰ (f a) (map f xs)
mem-map_of_mem f [] m = elim m [ ]
mem-map_of_mem f (x ∷ xs) m = elim (mem-cons_cases m) [
  | inl here ↦ Memᴰ.head (ap f here)
  | inr later ↦ Memᴰ.tail (mem-map_of_mem f xs later)
]

graph-closed :
    (ts : List Task) (a b : String)
    → IsEdge (graph_of ts []) a b
    → Memᴰ b (map (λ (t : Task). t.id) ts)
unfolding successors get
graph-closed ts a b edge = elim (mem_of_graph_of ts [] a b edge) [
  | inl (t, m, same, dep) ↦ rw same (mem-map_of_mem (λ (u : Task). u.id) ts m)
  | inr no_edge ↦ elim no_edge [ ]
]

abbrev start : List Task → Dfs
start ts = record { color = by_id (λ t. white) ts []; parent = by_id (λ t. none) ts [] }

start-IsSearch :
    (ts : List Task)
    → IsSearch (graph_of ts []) (map (λ (t : Task). t.id) ts) (length ts) (start ts) [] []
unfolding whites values get
start-IsSearch ts = record {
  painted = λ k m.
      let (t, listed, e) = mem-map (λ (u : Task). u.id) ts m in
      rw e (get-by_id (λ u. white) ts [] t listed);
  is_done = λ k h. elim (get-by_id_cases (λ u. white) ts [] k h) [
    | inl (t, m, own, e) ↦ absurd (cc)
    | inr e ↦ absurd (cc)
  ];
  done_black = λ k m. elim m [ ];
  is_stacked = λ k h. elim (get-by_id_cases (λ u. white) ts [] k h) [
    | inl (t, m, own, e) ↦ absurd (cc)
    | inr e ↦ absurd (cc)
  ];
  stack_gray = λ k m. elim m [ ];
  ordered = tt;
  chained = tt;
  enough =
      omega (
        arith,
        count-le-length is_white (values (start ts).color),
        length-by_id (λ t. white) ts [],
      );
}

-- What `_detect_cycle` answers: no cycle, with an order that shows it, or a cycle,
-- which is shown by a path of dependencies.
abbrev pub Answer : List Task → Option (List String) → Type 0
Answer ts none =
    (rank : String → ℕ) × (depth : ℕ) × IsAbove rank ts × ((k : String) → rank k < depth)
Answer ts (some c) = ((rank : String → ℕ) → ¬ IsAbove rank ts) × (is_empty c ≡ false) × IsRing ts c

clear-Answer :
    (ts : List Task) (done : List String)
    → IsOrdered (graph_of ts []) done
    → ((k : String) → Memᴰ k (map (λ (t : Task). t.id) ts) → Memᴰ k done)
    → Answer ts none
clear-Answer ts done ordered has_all = (
  place done,
  suc (length done),
  All-of_each (λ (t : Task). All (λ d. place done d < place done t.id) t.depends_on) ts
      (λ t m.
        All-of_each (λ d. place done d < place done t.id) t.depends_on
          (λ d dep.
            place-IsOrdered (graph_of ts []) done d t.id ordered (mem-graph_of ts [] t d m dep)
              (has_all t.id (mem-map_of_mem (λ (u : Task). u.id) ts m)))),
  (λ k. omega (arith, place-le-length done k)),
)

-- For any tasks the search ends within its fuel. It answers that there is no cycle exactly when some
-- rank puts every task above its dependencies; any other answer has the titles of tasks, each a
-- dependency of the next, the last of which is the first again.
pub detect_cycle-Answer :
    (ts : List Task) → (c : Option (List String)) × (detect_cycle ts ≡ some c) × Answer ts c
unfolding detect_cycle
detect_cycle-Answer ts =
    let graph = graph_of ts [] in
    let names = by_id (λ (t : Task). t.title) ts [] in
    let nodes = map (λ (t : Task). t.id) ts in
    let listed = (λ (t : Task) (m : Memᴰ t ts). mem-map_of_mem (λ (u : Task). u.id) ts m) in
    let s = start-IsSearch ts in
    let found =
      dfs_each-After names graph nodes (length ts) (length ts) ts (start ts) [] (graph-closed ts)
        listed s (omega (arith, s.enough)) in
    elim (Visit-cases (dfs_each names graph (length ts) (length ts) ts (start ts))) [
      | inl (st, e) ↦
          let (done, s1, grows, has_all, le) : After names graph nodes (length ts) nodes
              (whites (start ts)) [] [] (clear st) =
            rw e at found in
          (none, rw (detect_cycle, e) refl, clear-Answer ts done s1.ordered has_all)
      | inr (inl (c, e)) ↦
          let (cyclic, some_name, loop) : After names graph nodes (length ts) nodes
              (whites (start ts)) [] [] (cycle c) =
            rw e at found in
          (
            some c,
            rw (detect_cycle, e) refl,
            (
              (λ rank above. cyclic rank (IsAbove-IsRankOf rank ts above)),
              some_name,
              IsRing-of_loop ts c loop,
            ),
          )
      | inr (inr e) ↦ let none_left : true ≡ false = rw e at found in absurd (cc)
    ]
