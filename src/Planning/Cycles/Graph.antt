-- ===== src/Planning/Cycles/Graph.antt =====
-- The edges of the graph are the dependencies of the tasks.
use mathlib.Core.List.Memᴰ
use rooben.Prelude.{
  ◌≡◌, refl, sym, subst, String, List, [], ◌∷◌, ◌++◌, cond, str_eq, eq_iff, eq_refl, Memᴰ,
  mem-cons_cases, arith, inl, inr, ◌⊎◌, Bool-cases,
}
use rooben.Dict.{Dict, put}
use rooben.Dict.Laws.{get-put}
use rooben.Domain.Models.{Task}
use rooben.Planning.Cycles.{successors, add_edges, graph_of}

successors-put :
    (g : Dict (List String)) (k a : String) (ns : List String)
    → successors (put g k ns) a ≡ cond (str_eq k a) ns (successors g a)
unfolding successors
successors-put g k a ns = ground (arith, get-put g k a ns)

mem_of_add_edges :
    (id a b : String) (deps : List String) (g : Dict (List String))
    → Memᴰ b (successors (add_edges id deps g) a)
    → ((b ≡ id) × Memᴰ a deps) ⊎ Memᴰ b (successors g a)
unfolding add_edges
mem_of_add_edges id a b [] g m = inr m
mem_of_add_edges id a b (dep ∷ deps) g m =
    elim (mem_of_add_edges id a b deps (put g dep (successors g dep ++ id ∷ [])) m) [
      | inl (same, later) ↦ inl (same, Memᴰ.tail later)
      | inr old ↦ elim (Bool-cases (str_eq dep a)) [
        | inr other ↦ inr (rw (successors-put, other) at old)
        | inl here ↦
            let at_a : dep ≡ a = (eq_iff dep a).0 here in
            let old' : Memᴰ b (successors g dep ++ id ∷ []) = rw (successors-put, here) at old in
            elim (Memᴰ.append_cases (successors g dep) old') [
              | inl before ↦ inr (subst (λ x. Memᴰ b (successors g x)) at_a before)
              | inr new ↦ elim (mem-cons_cases new) [
                | inl same ↦ inl (same, Memᴰ.head (sym at_a))
                | inr more ↦ elim more [ ]
              ]
            ]
      ]
    ]

mem-add_edges_old :
    (id a b : String) (deps : List String) (g : Dict (List String))
    → Memᴰ b (successors g a)
    → Memᴰ b (successors (add_edges id deps g) a)
unfolding add_edges
mem-add_edges_old id a b [] g m = m
mem-add_edges_old id a b (dep ∷ deps) g m =
    mem-add_edges_old id a b deps (put g dep (successors g dep ++ id ∷ []))
      (elim (Bool-cases (str_eq dep a)) [
        | inr other ↦ rw (successors-put, other) m
        | inl here ↦
            rw (successors-put, here)
              (Memᴰ.append_left (id ∷ [])
                (subst (λ x. Memᴰ b (successors g x)) (sym ((eq_iff dep a).0 here)) m))
      ])

mem-add_edges_new :
    (id a : String) (deps : List String) (g : Dict (List String))
    → Memᴰ a deps
    → Memᴰ id (successors (add_edges id deps g) a)
unfolding add_edges
mem-add_edges_new id a [] g m = elim m [ ]
mem-add_edges_new id a (dep ∷ deps) g m =
    let g1 = put g dep (successors g dep ++ id ∷ []) in
    elim (mem-cons_cases m) [
      | inr later ↦ mem-add_edges_new id a deps g1 later
      | inl here ↦ mem-add_edges_old id a id deps g1 (
          rw (here, successors-put, eq_refl dep)
            (Memᴰ.append_right (successors g dep) (Memᴰ.head refl)))
    ]

-- An edge of the graph is a dependency of a task.
pub mem_of_graph_of :
    (ts : List Task) (g : Dict (List String)) (a b : String)
    → Memᴰ b (successors (graph_of ts g) a)
    → ((t : Task) × Memᴰ t ts × (b ≡ t.id) × Memᴰ a t.depends_on) ⊎ Memᴰ b (successors g a)
unfolding graph_of
mem_of_graph_of [] g a b m = inr m
mem_of_graph_of (t ∷ ts) g a b m = elim (mem_of_graph_of ts (add_edges t.id t.depends_on g) a b m) [
  | inl (u, later, same, dep) ↦ inl (u, Memᴰ.tail later, same, dep)
  | inr old ↦ elim (mem_of_add_edges t.id a b t.depends_on g old) [
    | inl (same, dep) ↦ inl (t, Memᴰ.head refl, same, dep)
    | inr older ↦ inr older
  ]
]

mem-graph_of_old :
    (ts : List Task) (g : Dict (List String)) (a b : String)
    → Memᴰ b (successors g a)
    → Memᴰ b (successors (graph_of ts g) a)
unfolding graph_of
mem-graph_of_old [] g a b m = m
mem-graph_of_old (t ∷ ts) g a b m =
    mem-graph_of_old ts (add_edges t.id t.depends_on g) a b
      (mem-add_edges_old t.id a b t.depends_on g m)

pub mem-graph_of :
    (ts : List Task) (g : Dict (List String)) (t : Task) (a : String)
    → Memᴰ t ts
    → Memᴰ a t.depends_on
    → Memᴰ t.id (successors (graph_of ts g) a)
unfolding graph_of
mem-graph_of [] g t a m dep = elim m [ ]
mem-graph_of (u ∷ ts) g t a m dep = elim (mem-cons_cases m) [
  | inl here ↦
      mem-graph_of_old ts (add_edges u.id u.depends_on g) a t.id
        (rw here (mem-add_edges_new u.id a u.depends_on g (rw here at dep)))
  | inr later ↦ mem-graph_of ts (add_edges u.id u.depends_on g) t a later dep
]
