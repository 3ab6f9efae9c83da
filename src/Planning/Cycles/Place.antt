-- ===== src/Planning/Cycles/Place.antt =====
-- The order in which the search leaves the nodes, as a rank.
use rooben.Prelude.{
  ℕ, zero, suc, ◌≤◌, ◌<◌, ◌≡◌, ◌≢◌, refl, sym, subst, String, List, [], ◌∷◌, length, cond, str_eq,
  eq_iff, eq_refl, Memᴰ, mem-cons_cases, arith, inl, inr, ◌⊎◌, Bool-cases,
}
use rooben.Dict.{Dict}
use rooben.Planning.Cycles.Chain.{IsEdge, IsOrdered}

-- The place in the order in which the search left the nodes; 0 for a node that it did not reach.
unfoldable pub place : List String → String → ℕ
place [] k = 0
place (n ∷ ns) k = cond (str_eq n k) 1 (elim (place ns k) [ zero ↦ zero | suc m ↦ suc (suc m) ])

place-positive : (ns : List String) (k : String) → Memᴰ k ns → 0 < place ns k
unfolding place
place-positive [] k m = elim m [ ]
place-positive (n ∷ ns) k m = elim (mem-cons_cases m) [
  | inl here ↦ rw (here, eq_refl n) (omega arith)
  | inr later ↦ ground (arith, place-positive ns k later)
]

pub place-le-length : (ns : List String) (k : String) → place ns k ≤ length ns
unfolding place
place-le-length [] k = omega arith
place-le-length (n ∷ ns) k = ground (arith, place-le-length ns k)

place-cases : (ns : List String) (k : String) → Memᴰ k ns ⊎ (place ns k ≡ 0)
unfolding place
place-cases [] k = inr refl
place-cases (n ∷ ns) k = elim (Bool-cases (str_eq n k)) [
  | inl here ↦ inl (Memᴰ.head (sym ((eq_iff n k).0 here)))
  | inr other ↦ elim (place-cases ns k) [
    | inl there ↦ inl (Memᴰ.tail there)
    | inr absent ↦ inr (rw (other, absent) refl)
  ]
]

mem-IsOrdered :
    (graph : Dict (List String)) (ns : List String) (a b : String)
    → IsOrdered graph ns
    → IsEdge graph a b
    → Memᴰ a ns
    → Memᴰ b ns
mem-IsOrdered graph [] a b h edge m = elim m [ ]
mem-IsOrdered graph (n ∷ ns) a b h edge m = elim (mem-cons_cases m) [
  | inl here ↦ Memᴰ.tail (h.1 b (rw here at edge))
  | inr later ↦ Memᴰ.tail (mem-IsOrdered graph ns a b h.2 edge later)
]

-- An edge leads to a node that was left before.
pub place-IsOrdered :
    (graph : Dict (List String)) (ns : List String) (a b : String)
    → IsOrdered graph ns
    → IsEdge graph a b
    → Memᴰ b ns
    → place ns a < place ns b
unfolding place
place-IsOrdered graph [] a b h edge m = elim m [ ]
place-IsOrdered graph (n ∷ ns) a b h edge m = elim (Bool-cases (str_eq n a)) [
  | inl here ↦
      let at_a : n ≡ a = (eq_iff n a).0 here in
      let behind : Memᴰ b ns = h.1 b (subst (λ x. IsEdge graph x b) (sym at_a) edge) in
      let apart : n ≢ b = (λ e. h.0 (subst (λ x. Memᴰ x ns) (sym e) behind)) in
      ground (arith, place-positive ns b behind, eq_iff n b)
  | inr other ↦ elim (mem-cons_cases m) [
    | inl top ↦ elim (place-cases ns a) [
      | inl there ↦
          absurd (h.0 (subst (λ x. Memᴰ x ns) top (mem-IsOrdered graph ns a b h.2 edge there)))
      | inr absent ↦ rw (other, absent, top, eq_refl n) (omega arith)
    ]
    | inr later ↦
        let apart : n ≢ b = (λ e. h.0 (subst (λ x. Memᴰ x ns) (sym e) later)) in
        ground (arith, place-IsOrdered graph ns a b h.2 edge later, eq_iff n b)
  ]
]
