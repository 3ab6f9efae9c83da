-- ===== src/Dict/Laws.antt =====
-- Laws of the dictionary: reads after writes, and what a write does to the values.
use mathlib.Core.Option
use rooben.Prelude.{
  ℕ, ◌+◌, ◌≢◌, ◌⊎◌, inl, inr, mem-cons_cases, sum_of, String, ◌≡◌, refl, some, Bool, true, false,
  [], ◌∷◌, arith, str_eq, eq_iff, eq_refl, cond, Memᴰ, All, count, subst,
}
use rooben.Dict.{Dict, get, put, values, map_values}

module _ {ℓ} {V : Type ℓ} where
  pub get-put :
      (d : Dict V) (k j : String) (v : V) → get (put d k v) j ≡ cond (str_eq k j) (some v) (get d j)
  unfolding get put
  get-put [] k j v = refl
  get-put ((i, w) ∷ d) k j v = ground (arith, eq_iff k j, eq_iff i k, eq_iff i j, get-put d k j v)

  pub get-put_self : (d : Dict V) (k : String) (v : V) → get (put d k v) k ≡ some v
  get-put_self d k v = simp (get-put, eq_refl)

  pub get-map_values :
      (f : V → V) (d : Dict V) (k : String) → get (map_values f d) k ≡ Option.map f (get d k)
  unfolding get map_values
  get-map_values f [] k = refl
  get-map_values f ((i, w) ∷ d) k = ground (arith, get-map_values f d k)

  -- Of two writes to a key the second one stays.
  pub put-put : (d : Dict V) (k : String) (v w : V) → put (put d k v) k w ≡ put d k w
  unfolding put
  put-put [] k v w = ground (arith, eq_refl k)
  put-put ((i, u) ∷ d) k v w = ground (arith, put-put d k v w)

  pub put_self : (d : Dict V) (k : String) (v : V) → get d k ≡ some v → put d k v ≡ d
  unfolding put get
  put_self [] k v h = absurd (cc)
  put_self ((i, u) ∷ d) k v h = ground (arith, put_self d k v)

  pub mem-get : (d : Dict V) (k : String) {v : V} → get d k ≡ some v → Memᴰ v (values d)
  unfolding get values
  mem-get [] k h = absurd (cc)
  mem-get ((i, w) ∷ d) k {v} h =
      elim (str_eq i k) as (λ b. cond b (some w) (get d k) ≡ some v → Memᴰ v (w ∷ values d)) [
        | true ↦ λ e. Memᴰ.head (cc)
        | false ↦ λ e. Memᴰ.tail (mem-get d k e)
      ]
        h

  pub put-ne_nil : (d : Dict V) (k : String) (v : V) → values (put d k v) ≢ []
  unfolding put values
  put-ne_nil [] k v h = cc
  put-ne_nil ((i, w) ∷ d) k v h = ground arith

  pub mem-put :
      (d : Dict V) (k : String) (v : V) {u : V}
      → Memᴰ u (values (put d k v))
      → (u ≡ v) ⊎ Memᴰ u (values d)
  unfolding put values
  mem-put [] k v m = elim (mem-cons_cases m) [
    | inl same ↦ inl same
    | inr none_left ↦ elim none_left [ ]
  ]
  mem-put ((i, w) ∷ d) k v {u} m =
      elim (str_eq i k)
          as (λ b.
            Memᴰ u (values (cond b ((i, v) ∷ d) ((i, w) ∷ put d k v)))
            → (u ≡ v) ⊎ Memᴰ u (w ∷ values d)) [
              | true ↦ λ m'. elim (mem-cons_cases m') [
                | inl same ↦ inl same
                | inr later ↦ inr (Memᴰ.tail later)
              ]
              | false ↦ λ m'. elim (mem-cons_cases m') [
                | inl same ↦ inr (Memᴰ.head same)
                | inr later ↦ elim (mem-put d k v later) [
                  | inl new ↦ inl new
                  | inr old ↦ inr (Memᴰ.tail old)
                ]
              ]
            ]
        m

  -- The measure of the written value replaces that of the value that was there.
  pub sum_of-put :
      (f : V → ℕ) (d : Dict V) (k : String) {old : V} (v : V)
      → get d k ≡ some old
      → sum_of f (values (put d k v)) + f old ≡ sum_of f (values d) + f v
  unfolding get put values
  sum_of-put f [] k v h = absurd (cc)
  sum_of-put f ((i, w) ∷ d) k {old} v h = ground (arith, sum_of-put f d k {old = old} v)

  -- The weight of the written value replaces that of the value that was there.
  pub count-put :
      (p : V → Bool) (d : Dict V) (k : String) {old : V} (v : V)
      → get d k ≡ some old
      → count p (values (put d k v)) + cond (p old) 1 0 ≡ count p (values d) + cond (p v) 1 0
  unfolding get put values
  count-put p [] k v h = absurd (cc)
  count-put p ((i, w) ∷ d) k {old} v h = ground (arith, count-put p d k {old = old} v)

module _ {ℓ κ} {V : Type ℓ} (P : V → Type κ) where
  pub All-put :
      (d : Dict V) (k : String) (v : V) → All P (values d) → P v → All P (values (put d k v))
  unfolding put values
  All-put [] k v h p = (p, tt)
  All-put ((i, w) ∷ d) k v h p =
      elim (str_eq i k) as (λ b. All P (values (cond b ((i, v) ∷ d) ((i, w) ∷ put d k v)))) [
        | true ↦ (p, h.1)
        | false ↦ (h.0, All-put d k v h.1 p)
      ]

  pub All-get : (d : Dict V) (k : String) {v : V} → All P (values d) → get d k ≡ some v → P v
  unfolding get values
  All-get [] k h e = absurd (cc)
  All-get ((i, w) ∷ d) k {v} h e =
      elim (str_eq i k) as (λ b. cond b (some w) (get d k) ≡ some v → P v) [
        | true ↦ λ q. let same : w ≡ v = cc in subst P same h.0
        | false ↦ λ q. All-get d k h.1 q
      ]
        e
