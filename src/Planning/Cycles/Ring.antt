-- ===== src/Planning/Cycles/Ring.antt =====
-- The cycle that `_detect_cycle` answers, in the words of the tasks.
use rooben.Prelude.{
  ◌≡◌, refl, sym, ap, ◌∙◌, true, false, String, List, [], ◌∷◌, ◌++◌, map, Memᴰ, inl, inr, All,
  All-at,
}
use rooben.Dict.{get}
use rooben.Domain.Models.{Task}
use rooben.Planning.Cycles.{successors, graph_of, by_id, name_of}
use rooben.Planning.Cycles.Graph.{mem_of_graph_of}
use rooben.Planning.Cycles.ById.{get-by_id, get-by_id_cases}
use rooben.Planning.Cycles.Closed.{IsPath, IsLoop}

module _ (ts : List Task) where
  abbrev IsListed : String → Type 0
  IsListed k = (t : Task) × Memᴰ t ts × (t.id ≡ k)

  -- The task `b` depends on `a`.
  abbrev DependsOn : String → String → Type 0
  DependsOn b a = (t : Task) × Memᴰ t ts × (t.id ≡ b) × Memᴰ a t.depends_on

  -- Each task is a dependency of the one behind it.
  abbrev IsDependencyPath : List String → Type 0
  IsDependencyPath [] = Unit
  IsDependencyPath (a ∷ []) = Unit
  IsDependencyPath (a ∷ b ∷ ns) = DependsOn b a × IsDependencyPath (b ∷ ns)

  -- The second list has a title for each id of the first.
  abbrev AreTitles : List String → List String → Type 0
  AreTitles [] [] = Unit
  AreTitles (k ∷ ks) (n ∷ ns) =
      ((t : Task) × Memᴰ t ts × (t.id ≡ k) × (n ≡ t.title)) × AreTitles ks ns
  AreTitles [] (n ∷ ns) = true ≡ false
  AreTitles (k ∷ ks) [] = true ≡ false

  -- The titles of a path of dependencies that ends with the task it begins with.
  abbrev pub IsRing : List String → Type 0
  IsRing c =
      (x : String) × (inner : List String) × IsDependencyPath (x ∷ (inner ++ x ∷ []))
      × AreTitles (x ∷ (inner ++ x ∷ [])) c

  DependsOn-of_edge : (a b : String) → Memᴰ b (successors (graph_of ts []) a) → DependsOn b a
  unfolding successors get
  DependsOn-of_edge a b edge = elim (mem_of_graph_of ts [] a b edge) [
    | inl (t, m, same, dep) ↦ (t, m, sym same, dep)
    | inr no_edge ↦ elim no_edge [ ]
  ]

  IsDependencyPath-of_path : (ns : List String) → IsPath (graph_of ts []) ns → IsDependencyPath ns
  IsDependencyPath-of_path [] h = tt
  IsDependencyPath-of_path (a ∷ []) h = tt
  IsDependencyPath-of_path (a ∷ b ∷ ns) h =
      (DependsOn-of_edge a b h.0, IsDependencyPath-of_path (b ∷ ns) h.1)

  IsListed-of_path : (a : String) (ns : List String) → IsDependencyPath (a ∷ ns) → All IsListed ns
  IsListed-of_path a [] h = tt
  IsListed-of_path a (b ∷ ns) h =
      let (t, m, same, dep) = h.0 in ((t, m, same), IsListed-of_path b ns h.1)

  mem-snoc : (ns : List String) (x : String) → Memᴰ x (ns ++ x ∷ [])
  mem-snoc [] x = Memᴰ.head refl
  mem-snoc (n ∷ ns) x = Memᴰ.tail (mem-snoc ns x)

  name_of-IsListed :
      (k : String)
      → IsListed k
      → (t : Task) × Memᴰ t ts
        × (t.id ≡ k)
        × (name_of (by_id (λ (u : Task). u.title) ts []) k ≡ t.title)
  unfolding name_of get
  name_of-IsListed k (u, listed, same) =
      let (v, found) = get-by_id (λ (t : Task). t.title) ts [] u listed in
      elim (get-by_id_cases (λ (t : Task). t.title) ts [] u.id found) [
        | inl (t, m, own, e) ↦ (t, m, own ∙ same, rw (name_of, ap (λ x. x) (sym same), found) e)
        | inr e ↦ absurd (cc)
      ]

  AreTitles-map :
      (ns : List String)
      → All IsListed ns
      → AreTitles ns (map (name_of (by_id (λ (u : Task). u.title) ts [])) ns)
  AreTitles-map [] h = tt
  AreTitles-map (n ∷ ns) h = (name_of-IsListed n h.0, AreTitles-map ns h.1)

  pub IsRing-of_loop :
      (c : List String) → IsLoop (graph_of ts []) (by_id (λ (u : Task). u.title) ts []) c → IsRing c
  IsRing-of_loop c (x, inner, path, titles) =
      let p = IsDependencyPath-of_path (x ∷ (inner ++ x ∷ [])) path in
      let listed = IsListed-of_path x (inner ++ x ∷ []) p in
      let first = All-at IsListed (inner ++ x ∷ []) listed (mem-snoc inner x) in
      (x, inner, p, rw titles (AreTitles-map (x ∷ (inner ++ x ∷ [])) (first, listed)))
