-- ===== src/Planning/Cycles/Search.antt =====
-- What a call of the search does to its invariant: it ends, and it ends with a cycle only if there is
-- one.
use rooben.Prelude.{
  ℕ, zero, suc, ◌≤◌, ◌≡◌, refl, String, true, false, Option, none, some, List, [], ◌∷◌, ◌++◌, map,
  is_empty, Memᴰ, mem-cons_cases, arith, inl, inr, ◌⊎◌,
}
use rooben.Dict.{Dict, get, put}
use rooben.Dict.Laws.{get-put_self}
use rooben.Domain.Models.{Task}
use rooben.Planning.Cycles.{
  Color, white, gray, black, Dfs, Visit, clear, cycle, exhausted, successors, paint, reverse,
  close_cycle, visit_each, dfs, dfs_each,
}
use rooben.Planning.Cycles.Chain.{
  IsEdge, IsChain, IsChain-put, walk_back-IsChain, IsCyclic, chain-IsCyclic, IsDown-cons,
}
use rooben.Planning.Cycles.Closed.{IsLoop, reverse-IsLoop}
use rooben.Planning.Cycles.Order.{whites, IsSearch, enter-IsSearch, leave-IsSearch}

is_empty-append : {A : Type 0} (xs : List A) (x : A) → is_empty (xs ++ x ∷ []) ≡ false
is_empty-append [] x = refl
is_empty-append (y ∷ xs) x = refl

pub Visit-cases :
    (v : Visit)
    → ((st : Dfs) × (v ≡ clear st)) ⊎ (((c : List String) × (v ≡ cycle c)) ⊎ (v ≡ exhausted))
Visit-cases (clear st) = inl (st, refl)
Visit-cases (cycle c) = inr (inl (c, refl))
Visit-cases exhausted = inr (inr refl)

Color-cases :
    (c : Option Color) → (c ≡ none) ⊎ ((c ≡ some white) ⊎ ((c ≡ some gray) ⊎ (c ≡ some black)))
Color-cases none = inl refl
Color-cases (some white) = inr (inl refl)
Color-cases (some gray) = inr (inr (inl refl))
Color-cases (some black) = inr (inr (inr refl))

module _ (names : Dict String) (graph : Dict (List String)) (nodes : List String) (steps : ℕ) where
  -- A call that goes on is done with the nodes `must`, on the same stack; it never lacks fuel.
  abbrev pub After : List String → ℕ → List String → List String → Visit → Type 0
  After must bound done stack (clear st) =
      (done' : List String) × IsSearch graph nodes steps st done' stack
      × ((k : String) → Memᴰ k done → Memᴰ k done')
      × ((k : String) → Memᴰ k must → Memᴰ k done')
      × (whites st ≤ bound)
  After must bound done stack (cycle c) =
      IsCyclic graph × (is_empty c ≡ false) × IsLoop graph names c
  After must bound done stack exhausted = true ≡ false

  close_cycle-After :
      (must : List String) (bound : ℕ) (done : List String) (node target : String) (st : Dfs)
      (stack : List String)
      → IsSearch graph nodes steps st done (node ∷ stack)
      → Memᴰ target (node ∷ stack)
      → IsEdge graph node target
      → After must bound done (node ∷ stack) (close_cycle names graph steps node target st)
  unfolding close_cycle reverse
  close_cycle-After must bound done node target st stack s m edge =
      let (path, e, down, (rest, begins)) =
        walk_back-IsChain graph steps st.parent target node stack s.chained m
          (omega (arith, s.enough)) in
      rw (e, close_cycle)
        (
          chain-IsCyclic graph st.parent target node stack s.chained m edge,
          is_empty-append _ _,
          reverse-IsLoop graph names target path
              (IsDown-cons graph target (path ++ target ∷ []) node rest begins edge down),
        )

  -- Only parents of nodes outside of the stack change before a call.
  parent-IsSearch :
      (st : Dfs) (done : List String) (k : String) (v : Option String) (stack : List String)
      → IsSearch graph nodes steps st done stack
      → get st.color k ≡ some white
      → IsSearch graph nodes steps (record st { parent = put st.parent k v }) done stack
  unfolding whites
  parent-IsSearch st done k v stack s w = record {
    painted = s.painted;
    is_done = s.is_done;
    done_black = s.done_black;
    is_stacked = s.is_stacked;
    stack_gray = s.stack_gray;
    ordered = s.ordered;
    chained = IsChain-put graph st.parent k v stack (λ m. cc (s.stack_gray k m)) s.chained;
    enough = s.enough;
  }

  -- What the recursive call does.
  abbrev IsSearching : ℕ → (String → Dfs → Visit) → Type 0
  IsSearching fuel search =
      (node : String) (st : Dfs) (done stack : List String)
      → IsSearch graph nodes steps st done stack
      → get st.color node ≡ some white
      → IsChain graph st.parent (node ∷ stack)
      → whites st ≤ fuel
      → After (node ∷ []) (whites st) done stack (search node st)

  After-cons :
      (n : String) (ns : List String) (b0 b1 : ℕ) (done0 done1 stack : List String) (v : Visit)
      → Memᴰ n done1
      → ((k : String) → Memᴰ k done0 → Memᴰ k done1)
      → b1 ≤ b0
      → After ns b1 done1 stack v
      → After (n ∷ ns) b0 done0 stack v
  After-cons n ns b0 b1 done0 done1 stack (clear st) m more le (done2, s, grows, has_all, fewer) = (
    done2,
    s,
    (λ k i. grows k (more k i)),
    (λ k i. elim (mem-cons_cases i) [
      | inl same ↦ rw same (grows n m)
      | inr later ↦ has_all k later
    ]),
    omega (arith, le, fewer),
  )
  After-cons n ns b0 b1 done0 done1 stack (cycle c) m more le h = h
  After-cons n ns b0 b1 done0 done1 stack exhausted m more le h = h

  visit_each-After :
      (fuel : ℕ) (search : String → Dfs → Visit)
      → IsSearching fuel search
      → ((a b : String) → IsEdge graph a b → Memᴰ b nodes)
      → (node : String) (ns : List String) (st : Dfs) (done stack : List String)
      → ((b : String) → Memᴰ b ns → IsEdge graph node b)
      → IsSearch graph nodes steps st done (node ∷ stack)
      → whites st ≤ fuel
      → After ns (whites st) done (node ∷ stack) (visit_each names graph steps search node ns st)
  unfolding visit_each whites
  visit_each-After fuel search spec closed node [] st done stack edges s le =
      (done, s, (λ k m. m), (λ k m. elim m [ ]), omega arith)
  visit_each-After fuel search spec closed node (n ∷ ns) st done stack edges s le =
      let edge = edges n (Memᴰ.head refl) in
      let rest = (λ (b : String) (m : Memᴰ b ns). edges b (Memᴰ.tail m)) in
      elim (Color-cases (get st.color n)) [
        | inl missing ↦ let (c, e) = s.painted n (closed node n edge) in absurd (cc)
        | inr (inl w) ↦
            let st1 : Dfs = record st { parent = put st.parent n (some node) } in
            let s1 = parent-IsSearch st done n (some node) (node ∷ stack) s w in
            let found : After (n ∷ []) (whites st1) done (node ∷ stack) (search n st1) =
              spec n st1 done (node ∷ stack) s1 w
                (get-put_self st.parent n (some node), edge, s1.chained) le in
            elim (Visit-cases (search n st1)) [
              | inl (st2, e) ↦
                  let (done2, s2, grows, has_all, fewer) : After (n ∷ []) (whites st1) done
                      (node ∷ stack) (clear st2) =
                    rw e at found in
                  rw (w, visit_each, e)
                    (After-cons n ns (whites st) (whites st2) done done2 (node ∷ stack) _
                      (has_all n (Memᴰ.head refl)) grows fewer
                      (visit_each-After fuel search spec closed node ns st2 done2 stack rest s2
                        (omega (arith, fewer, le))))
              | inr (inl (c, e)) ↦ rw (w, visit_each, e) (rw e at found)
              | inr (inr e) ↦ let none_left : true ≡ false = rw e at found in absurd (cc)
            ]
        | inr (inr (inl g)) ↦
            rw (g, visit_each)
              (close_cycle-After (n ∷ ns) (whites st) done node n st stack s (s.is_stacked n g)
                edge)
        | inr (inr (inr b)) ↦
            rw (b, visit_each)
              (After-cons n ns (whites st) (whites st) done done (node ∷ stack) _ (s.is_done n b)
                (λ k m. m) (omega arith)
                (visit_each-After fuel search spec closed node ns st done stack rest s le))
      ]

  dfs-After :
      (fuel : ℕ)
      → ((a b : String) → IsEdge graph a b → Memᴰ b nodes)
      → IsSearching fuel (dfs names graph steps fuel)
  unfolding dfs
  dfs-After zero closed node st done stack s w chain le =
      let (s1, fewer) = enter-IsSearch graph nodes steps node st done stack s w chain in
      absurd (omega arith)
  dfs-After (suc fuel) closed node st done stack s w chain le =
      let (s1, fewer) = enter-IsSearch graph nodes steps node st done stack s w chain in
      let off : ¬ Memᴰ node stack = (λ m. cc (s.stack_gray node m)) in
      let ns = successors graph node in
      let search = dfs names graph steps fuel in
      let found =
        visit_each-After fuel search (dfs-After fuel closed) closed node ns (paint node gray st)
          done stack (λ b m. m) s1 (omega (arith, fewer, le)) in
      elim (Visit-cases (visit_each names graph steps search node ns (paint node gray st))) [
        | inl (st2, e) ↦
            let (done2, s2, grows, has_all, bound) : After ns (whites (paint node gray st)) done
                (node ∷ stack) (clear st2) =
              rw e at found in
            let (s3, same) = leave-IsSearch graph nodes steps node st2 done2 stack s2 off has_all in
            rw (dfs, e)
              (
                node ∷ done2,
                s3,
                λ k m. Memᴰ.tail (grows k m),
                λ k m. elim (mem-cons_cases m) [
                  | inl here ↦ Memᴰ.head here
                  | inr later ↦ elim later [ ]
                ],
                omega (arith, same, bound, fewer),
              )
        | inr (inl (c, e)) ↦ rw (dfs, e) (rw e at found)
        | inr (inr e) ↦ let none_left : true ≡ false = rw e at found in absurd (cc)
      ]

  -- The loop over the tasks: at its end all of them are done.
  pub dfs_each-After :
      (fuel : ℕ) (ts : List Task) (st : Dfs) (done : List String)
      → ((a b : String) → IsEdge graph a b → Memᴰ b nodes)
      → ((t : Task) → Memᴰ t ts → Memᴰ t.id nodes)
      → IsSearch graph nodes steps st done []
      → whites st ≤ fuel
      → After
          (map (λ (t : Task). t.id) ts)
          (whites st)
          done
          []
          (dfs_each names graph steps fuel ts st)
  unfolding dfs_each
  dfs_each-After fuel [] st done closed listed s le =
      (done, s, (λ k m. m), (λ k m. elim m [ ]), omega arith)
  dfs_each-After fuel (t ∷ ts) st done closed listed s le =
      let rest = (λ (u : Task) (m : Memᴰ u ts). listed u (Memᴰ.tail m)) in
      elim (Color-cases (get st.color t.id)) [
        | inl missing ↦ let (c, e) = s.painted t.id (listed t (Memᴰ.head refl)) in absurd (cc)
        | inr (inl w) ↦
            let found = dfs-After fuel closed t.id st done [] s w tt le in
            elim (Visit-cases (dfs names graph steps fuel t.id st)) [
              | inl (st2, e) ↦
                  let (done2, s2, grows, has_all, fewer) : After (t.id ∷ []) (whites st) done []
                      (clear st2) =
                    rw e at found in
                  rw (w, dfs_each, e)
                    (After-cons t.id (map (λ (u : Task). u.id) ts) (whites st) (whites st2) done
                      done2 [] _ (has_all t.id (Memᴰ.head refl)) grows fewer
                      (dfs_each-After fuel ts st2 done2 closed rest s2 (omega (arith, fewer, le))))
              | inr (inl (c, e)) ↦ rw (w, dfs_each, e) (rw e at found)
              | inr (inr e) ↦ let none_left : true ≡ false = rw e at found in absurd (cc)
            ]
        | inr (inr (inl g)) ↦ elim (s.is_stacked t.id g) [ ]
        | inr (inr (inr b)) ↦
            rw (b, dfs_each)
              (After-cons t.id (map (λ (u : Task). u.id) ts) (whites st) (whites st) done done [] _
                (s.is_done t.id b) (λ k m. m) (omega arith)
                (dfs_each-After fuel ts st done closed rest s le))
      ]
