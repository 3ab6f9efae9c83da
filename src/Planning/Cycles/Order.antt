-- ===== src/Planning/Cycles/Order.antt =====
-- What the search keeps: a white node is untouched, the gray ones are a chain of edges that the parents
-- lead back along, and the black ones have all their successors behind them.
use rooben.Prelude.{
  ℕ, suc, ◌+◌, ◌≤◌, ◌≡◌, ◌≢◌, inl, inr, refl, sym, ◌∙◌, String, Bool, true, false, some, List, ◌∷◌,
  length, count, Memᴰ, mem-cons_cases, arith, str_eq, eq_iff, Bool-cases, subst,
}
use rooben.Dict.{Dict, get, values}
use rooben.Dict.Laws.{get-put, get-put_self, count-put}
use rooben.Planning.Cycles.{Color, white, gray, black, Dfs, paint}
use rooben.Planning.Cycles.Chain.{IsEdge, IsOrdered, IsChain, IsChain-tail}

unfoldable pub is_white : Color → Bool
is_white white = true
is_white gray = false
is_white black = false

-- The nodes that were not reached yet.
unfoldable pub whites : Dfs → ℕ
unfolding is_white values
whites st = count is_white (values st.color)

module _ (graph : Dict (List String)) where
  -- All of `nodes` have a colour; the black ones are `done`, and the gray ones `stack`.
  pub record IsSearch (nodes : List String) (steps : ℕ) (st : Dfs) (done stack : List String)
      : Type 0 where
    pub painted : (k : String) → Memᴰ k nodes → (c : Color) × (get st.color k ≡ some c)
    pub is_done : (k : String) → get st.color k ≡ some black → Memᴰ k done
    pub done_black : (k : String) → Memᴰ k done → get st.color k ≡ some black
    pub is_stacked : (k : String) → get st.color k ≡ some gray → Memᴰ k stack
    pub stack_gray : (k : String) → Memᴰ k stack → get st.color k ≡ some gray
    pub ordered : IsOrdered graph done
    pub chained : IsChain graph st.parent stack
    pub enough : whites st + length stack ≤ steps

  painted-paint :
      (node : String) (c : Color) (st : Dfs) (k : String)
      → (c0 : Color) × (get st.color k ≡ some c0)
      → (c1 : Color) × (get (paint node c st).color k ≡ some c1)
  unfolding paint
  painted-paint node c st k (c0, e) = elim (Bool-cases (str_eq node k)) [
    | inl same ↦ (c, ground (arith, get-put st.color node k c))
    | inr other ↦ (c0, ground (arith, get-put st.color node k c))
  ]

  paint_self : (node : String) (c : Color) (st : Dfs) → get (paint node c st).color node ≡ some c
  unfolding paint
  paint_self node c st = get-put_self st.color node c

  paint_other :
      (node : String) (c : Color) (st : Dfs) (k : String)
      → node ≢ k
      → get (paint node c st).color k ≡ get st.color k
  unfolding paint
  paint_other node c st k other = ground (arith, get-put st.color node k c, eq_iff node k)

  -- `dfs` enters a white node.
  pub enter-IsSearch :
      (nodes : List String) (steps : ℕ) (node : String) (st : Dfs) (done stack : List String)
      → IsSearch nodes steps st done stack
      → get st.color node ≡ some white
      → IsChain graph st.parent (node ∷ stack)
      → IsSearch nodes steps (paint node gray st) done (node ∷ stack)
        × (suc (whites (paint node gray st)) ≡ whites st)
  unfolding whites is_white paint
  enter-IsSearch nodes steps node st done stack s w chain =
      let fewer : suc (whites (paint node gray st)) ≡ whites st = enter-whites in
      (
        record {
          painted = λ k m. painted-paint node gray st k (s.painted k m);
          is_done = λ k h. elim (Bool-cases (str_eq node k)) [
            | inl same ↦ absurd (cc (paint_self node gray st, (eq_iff node k).0 same))
            | inr other ↦ s.is_done k (sym (paint_other node gray st k (apart k other)) ∙ h)
          ];
          done_black = λ k m.
              paint_other node gray st k (λ e. absurd (cc (s.done_black k m))) ∙ s.done_black k m;
          is_stacked = λ k h. elim (Bool-cases (str_eq node k)) [
            | inl same ↦ Memᴰ.head (sym ((eq_iff node k).0 same))
            | inr other ↦
                Memᴰ.tail (s.is_stacked k (sym (paint_other node gray st k (apart k other)) ∙ h))
          ];
          stack_gray = λ k m. elim (mem-cons_cases m) [
            | inl same ↦ rw same (paint_self node gray st)
            | inr later ↦
                paint_other node gray st k (λ e. absurd (cc (s.stack_gray k later)))
                ∙ s.stack_gray k later
          ];
          ordered = s.ordered;
          chained = chain;
          enough = omega (arith, s.enough, fewer);
        },
        fewer,
      )
    where
      apart : (k : String) → str_eq node k ≡ false → node ≢ k
      apart k other e = ground (arith, eq_iff node k)

      enter-whites : suc (whites (paint node gray st)) ≡ whites st
      enter-whites = omega (arith, count-put is_white st.color node {old = white} gray w)

  -- `dfs` leaves a node whose successors are all done.
  pub leave-IsSearch :
      (nodes : List String) (steps : ℕ) (node : String) (st : Dfs) (done stack : List String)
      → IsSearch nodes steps st done (node ∷ stack)
      → ¬ Memᴰ node stack
      → ((b : String) → IsEdge graph node b → Memᴰ b done)
      → IsSearch nodes steps (paint node black st) (node ∷ done) stack
        × (whites (paint node black st) ≡ whites st)
  unfolding whites is_white paint
  leave-IsSearch nodes steps node st done stack s off all_done =
      let same_whites : whites (paint node black st) ≡ whites st = leave-whites in
      (
        record {
          painted = λ k m. painted-paint node black st k (s.painted k m);
          is_done = λ k h. elim (Bool-cases (str_eq node k)) [
            | inl same ↦ Memᴰ.head (sym ((eq_iff node k).0 same))
            | inr other ↦
                Memᴰ.tail (s.is_done k (sym (paint_other node black st k (apart k other)) ∙ h))
          ];
          done_black = λ k m. elim (mem-cons_cases m) [
            | inl same ↦ rw same (paint_self node black st)
            | inr later ↦
                paint_other node black st k (λ e. absurd (cc (s.done_black k later, at_node)))
                ∙ s.done_black k later
          ];
          is_stacked = λ k h. elim (Bool-cases (str_eq node k)) [
            | inl same ↦ absurd (cc (paint_self node black st, (eq_iff node k).0 same))
            | inr other ↦
                elim (mem-cons_cases
                  (s.is_stacked k (sym (paint_other node black st k (apart k other)) ∙ h))) [
                    | inl here ↦ absurd (apart k other (sym here))
                    | inr later ↦ later
                  ]
          ];
          stack_gray = λ k m.
              paint_other node black st k (λ e. off (subst (λ x. Memᴰ x stack) (sym e) m))
              ∙ s.stack_gray k (Memᴰ.tail m);
          ordered = ((λ m. cc (s.done_black node m, at_node)), all_done, s.ordered);
          chained = IsChain-tail graph st.parent node stack s.chained;
          enough = omega (arith, s.enough, same_whites);
        },
        same_whites,
      )
    where
      at_node : get st.color node ≡ some gray
      at_node = s.stack_gray node (Memᴰ.head refl)

      apart : (k : String) → str_eq node k ≡ false → node ≢ k
      apart k other e = ground (arith, eq_iff node k)

      leave-whites : whites (paint node black st) ≡ whites st
      leave-whites = omega (arith, count-put is_white st.color node {old = gray} black at_node)
