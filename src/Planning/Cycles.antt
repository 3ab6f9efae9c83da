-- ===== src/Planning/Cycles.antt =====
-- src/rooben/planning/checker.py, `_detect_cycle`: a depth-first search with three colours. The
-- recursion and the walk back along the parents are on fuel.
pub mod Chain
pub mod Order
pub mod Search
pub mod Graph
pub mod Place
pub mod Closed
pub mod ById
pub mod Ring
pub mod Acyclic
use rooben.Prelude.{
  ℕ, zero, suc, String, true, false, Option, none, some, List, [], ◌∷◌, ◌++◌, length, map, str_eq,
}
use rooben.Dict.{Dict, get, put}
use rooben.Domain.Models.{Task}

-- graph.get(node, [])
unfoldable pub successors : Dict (List String) → String → List String
unfolding get
successors graph node = elim (get graph node) [ none ↦ [] | some ns ↦ ns ]

-- `for dep_id in task.depends_on: graph[dep_id].append(task.id)`
unfoldable pub add_edges : String → List String → Dict (List String) → Dict (List String)
unfolding successors put
add_edges id [] graph = graph
add_edges id (dep ∷ deps) graph =
    add_edges id deps (put graph dep (successors graph dep ++ id ∷ []))

unfoldable pub graph_of : List Task → Dict (List String) → Dict (List String)
unfolding add_edges
graph_of [] graph = graph
graph_of (t ∷ ts) graph = graph_of ts (add_edges t.id t.depends_on graph)

-- {t.id: f(t) for t in tasks}
unfoldable pub by_id {ℓ} : {A : Type ℓ} → (Task → A) → List Task → Dict A → Dict A
unfolding put
by_id f [] d = d
by_id f (t ∷ ts) d = by_id f ts (put d t.id (f t))

pub data Color : Type 0 where
  white : Color
  gray : Color
  black : Color

-- The two dictionaries that the search changes.
pub record Dfs : Type 0 where
  pub color : Dict Color
  pub parent : Dict (Option String)

-- A search goes on, or ends with the titles of a cycle, or has no fuel left.
pub data Visit : Type 0 where
  clear : Dfs → Visit
  cycle : List String → Visit
  exhausted : Visit

unfoldable pub paint : String → Color → Dfs → Dfs
paint node c st = record st { color = put st.color node c }

-- `while cur != neighbor: …; cur = parent.get(cur, neighbor)`: the nodes passed. A parent that is None
-- would never end the loop.
unfoldable pub walk_back : ℕ → Dict (Option String) → String → String → Option (List String)
unfolding get
walk_back zero parent neighbor cur = elim (str_eq cur neighbor) [ true ↦ some [] | false ↦ none ]
walk_back (suc fuel) parent neighbor cur = elim (str_eq cur neighbor) [
  | true ↦ some []
  | false ↦ elim (get parent cur) [
    | none ↦ some (cur ∷ [])
    | some none ↦ none
    | some (some p) ↦ elim (walk_back fuel parent neighbor p) [
      | none ↦ none
      | some ns ↦ some (cur ∷ ns)
    ]
  ]
]

-- task_names.get(node, node)
unfoldable pub name_of : Dict String → String → String
unfolding get
name_of names node = elim (get names node) [ none ↦ node | some name ↦ name ]

unfoldable pub reverse {ℓ} : {A : Type ℓ} → List A → List A
reverse [] = []
reverse (x ∷ xs) = reverse xs ++ x ∷ []

module _ (names : Dict String) (graph : Dict (List String)) (steps : ℕ) where
  -- The cycle at a gray neighbor.
  unfoldable pub close_cycle : String → String → Dfs → Visit
  unfolding walk_back name_of reverse
  close_cycle node neighbor st = elim (walk_back steps st.parent neighbor node) [
    | none ↦ exhausted
    | some ns ↦
        cycle (
          reverse
            (name_of names neighbor ∷ (map (name_of names) ns ++ name_of names neighbor ∷ [])))
  ]

  -- The loop over the neighbors of `node`; `search` is the recursive call.
  unfoldable pub visit_each : (String → Dfs → Visit) → String → List String → Dfs → Visit
  unfolding close_cycle get put
  visit_each search node [] st = clear st
  visit_each search node (neighbor ∷ ns) st = elim (get st.color neighbor) [
    | none ↦ visit_each search node ns st
    | some gray ↦ close_cycle node neighbor st
    | some white ↦
        elim (search neighbor (record st { parent = put st.parent neighbor (some node) })) [
          | clear st1 ↦ visit_each search node ns st1
          | cycle c ↦ cycle c
          | exhausted ↦ exhausted
        ]
    | some black ↦ visit_each search node ns st
  ]

  -- dfs
  unfoldable pub dfs : ℕ → String → Dfs → Visit
  unfolding visit_each paint successors
  dfs zero node st = exhausted
  dfs (suc fuel) node st =
      elim (visit_each (dfs fuel) node (successors graph node) (paint node gray st)) [
        | clear st1 ↦ clear (paint node black st1)
        | cycle c ↦ cycle c
        | exhausted ↦ exhausted
      ]

  -- `for task in tasks:` from the tasks that are left. Each of them has a colour.
  unfoldable pub dfs_each : ℕ → List Task → Dfs → Visit
  unfolding dfs get
  dfs_each fuel [] st = clear st
  dfs_each fuel (t ∷ ts) st = elim (get st.color t.id) [
    | none ↦ exhausted
    | some gray ↦ dfs_each fuel ts st
    | some white ↦ elim (dfs fuel t.id st) [
      | clear st1 ↦ dfs_each fuel ts st1
      | cycle c ↦ cycle c
      | exhausted ↦ exhausted
    ]
    | some black ↦ dfs_each fuel ts st
  ]

-- _detect_cycle; the outer `none`: the fuel did not suffice.
unfoldable pub detect_cycle : List Task → Option (Option (List String))
unfolding by_id graph_of dfs_each
detect_cycle tasks =
    let start : Dfs = record {
      color = by_id (λ t. white) tasks [];
      parent = by_id (λ t. none) tasks [];
    } in
    elim (dfs_each (by_id (λ t. t.title) tasks []) (graph_of tasks []) (length tasks) (length tasks)
      tasks start) [ clear st ↦ some none | cycle c ↦ some (some c) | exhausted ↦ none ]
