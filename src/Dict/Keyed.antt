-- ===== src/Dict/Keyed.antt =====
-- A dictionary in which each object stands once, under its own identifier, as the state keeps its
-- tasks, workstreams and workflows.
use rooben.Prelude.{
  String, ◌≡◌, refl, none, some, true, false, [], ◌∷◌, arith, str_eq, eq_iff, cond, Memᴰ,
  mem-cons_cases, inl, inr, Bool-cases, Bool, List, ◌≢◌, subst, sym, ◌∙◌, keep, mem_of_mem-keep,
}
use rooben.Dict.{Dict, get, has, put, values, map_values}

module _ {ℓ} {V : Type ℓ} where
  pub has-put :
      (d : Dict V) (k j : String) (v : V) → has (put d k v) j ≡ cond (str_eq k j) true (has d j)
  unfolding has put
  has-put [] k j v = refl
  has-put ((i, w) ∷ d) k j v = ground (arith, eq_iff k j, eq_iff i k, eq_iff i j, has-put d k j v)

  pub has-get : (d : Dict V) (k : String) {v : V} → get d k ≡ some v → has d k ≡ true
  unfolding has get
  has-get [] k h = absurd (cc)
  has-get ((i, w) ∷ d) k {v} h = ground (arith, has-get d k {v = v})

  pub has-absent : (d : Dict V) (k : String) → get d k ≡ none → has d k ≡ false
  unfolding has get
  has-absent [] k h = refl
  has-absent ((i, w) ∷ d) k h = ground (arith, has-absent d k)

  has-map_values : (f : V → V) (d : Dict V) (k : String) → has (map_values f d) k ≡ has d k
  unfolding has map_values
  has-map_values f [] k = refl
  has-map_values f ((i, w) ∷ d) k = ground (arith, has-map_values f d k)

module _ {ℓ} {V : Type ℓ} (id : V → String) where
  abbrev pub IsKeyed : Dict V → Type 0
  IsKeyed [] = Unit
  IsKeyed ((k, v) ∷ d) = (id v ≡ k) × (has d k ≡ false) × IsKeyed d

  pub put-IsKeyed : (d : Dict V) (k : String) (v : V) → id v ≡ k → IsKeyed d → IsKeyed (put d k v)
  unfolding put has
  put-IsKeyed [] k v e h = (e, refl, tt)
  put-IsKeyed ((i, w) ∷ d) k v e h = elim (Bool-cases (str_eq i k)) [
    | inl same ↦ rw same (let at_key : i ≡ k = (eq_iff i k).0 same in cc, h.1, h.2)
    | inr other ↦
        rw other
          (h.0, ground (arith, has-put d k i v, eq_iff i k, eq_iff k i), put-IsKeyed d k v e h.2)
  ]

  map_values-IsKeyed :
      (f : V → V)
      → ((v : V) → id (f v) ≡ id v)
      → (d : Dict V) → IsKeyed d
      → IsKeyed (map_values f d)
  unfolding map_values
  map_values-IsKeyed f same [] h = tt
  map_values-IsKeyed f same ((i, w) ∷ d) h =
      (cc (same w), rw (has-map_values f d i) h.1, map_values-IsKeyed f same d h.2)

  pub get-key : (d : Dict V) (k : String) {v : V} → IsKeyed d → get d k ≡ some v → id v ≡ k
  unfolding get
  get-key [] k h e = absurd (cc)
  get-key ((i, w) ∷ d) k {v} h e = elim (Bool-cases (str_eq i k)) [
    | inl same ↦ ground (arith, eq_iff i k)
    | inr other ↦ get-key d k h.2 (rw other at e)
  ]

  pub get-mem : (d : Dict V) {v : V} → IsKeyed d → Memᴰ v (values d) → get d (id v) ≡ some v
  unfolding get values
  get-mem [] h m = elim m [ ]
  get-mem ((i, w) ∷ d) {v} h m = elim (mem-cons_cases m) [
    | inl same ↦ ground (arith, eq_iff i (id v))
    | inr later ↦ ground (arith, eq_iff i (id v), get-mem d h.2 later, has-get d (id v) {v = v})
  ]

  -- No two objects of the list share an identifier.
  abbrev pub IsDistinct : List V → Type ℓ
  IsDistinct [] = Unit
  IsDistinct (v ∷ vs) = ((u : V) → Memᴰ u vs → id v ≢ id u) × IsDistinct vs

  not-mem_of_has :
      (d : Dict V) (k : String) {v : V} → IsKeyed d → has d k ≡ false → Memᴰ v (values d) → k ≢ id v
  not-mem_of_has d k {v} h absent m same =
      let there = has-get d (id v) (get-mem d h m) in
      let at_k : has d k ≡ true = subst (λ j. has d j ≡ true) (sym same) there in cc

  pub values-IsDistinct : (d : Dict V) → IsKeyed d → IsDistinct (values d)
  unfolding values
  values-IsDistinct [] h = tt
  values-IsDistinct ((k, v) ∷ d) h =
      ((λ u m same. not-mem_of_has d k h.2 h.1 m (sym h.0 ∙ same)), values-IsDistinct d h.2)

  pub keep-IsDistinct : (p : V → Bool) (vs : List V) → IsDistinct vs → IsDistinct (keep p vs)
  keep-IsDistinct p [] h = tt
  keep-IsDistinct p (v ∷ vs) h = elim (Bool-cases (p v)) [
    | inl kept ↦ rw kept ((λ u m. h.0 u (mem_of_mem-keep p vs m).0), keep-IsDistinct p vs h.1)
    | inr dropped ↦ rw dropped (keep-IsDistinct p vs h.1)
  ]
