-- ===== src/Prelude/Lists.antt =====
-- Lists measured by native numbers, Boolean quantifiers over a list, and predicates by recursion.
use Prim.Native.Nat.{ℕ, zero, suc, ◌+◌, ◌≤◌}
use mathlib.Core.Path.{◌≡◌, refl, sym, subst}
use mathlib.Core.Bool.{Bool, true, false, ◌&&◌, ◌||◌, cond}
use mathlib.Core.List.{List, [], ◌∷◌, ◌++◌, map, Memᴰ}
use mathlib.Core.Logic.{◌⊎◌, inl, inr}
use native.Mathlib.Omega.{arith}

module _ {ℓ} {A : Type ℓ} where
  abbrev pub length : List A → ℕ
  length [] = 0
  length (x ∷ xs) = suc (length xs)

  abbrev pub any : (A → Bool) → List A → Bool
  any p [] = false
  any p (x ∷ xs) = p x || any p xs

  abbrev pub all : (A → Bool) → List A → Bool
  all p [] = true
  all p (x ∷ xs) = p x && all p xs

  -- `[x for x in xs if p(x)]`
  abbrev pub keep : (A → Bool) → List A → List A
  keep p [] = []
  keep p (x ∷ xs) = cond (p x) (x ∷ keep p xs) (keep p xs)

  abbrev pub count : (A → Bool) → List A → ℕ
  count p [] = 0
  count p (x ∷ xs) = cond (p x) 1 0 + count p xs

  abbrev pub sum_of : (A → ℕ) → List A → ℕ
  sum_of f [] = 0
  sum_of f (x ∷ xs) = f x + sum_of f xs

  -- xs[:n]
  abbrev pub take : ℕ → List A → List A
  take zero xs = []
  take (suc n) [] = []
  take (suc n) (x ∷ xs) = x ∷ take n xs

  abbrev pub is_empty : List A → Bool
  is_empty [] = true
  is_empty (x ∷ xs) = false

  pub length-append : (xs ys : List A) → length (xs ++ ys) ≡ length xs + length ys
  length-append [] ys = omega arith
  length-append (x ∷ xs) ys = omega (arith, length-append xs ys)

  any-append : (p : A → Bool) (xs ys : List A) → any p (xs ++ ys) ≡ (any p xs || any p ys)
  any-append p [] ys = refl
  any-append p (x ∷ xs) ys = ground (arith, any-append p xs ys)

  pub is_empty-append : (xs ys : List A) → is_empty (xs ++ ys) ≡ (is_empty xs && is_empty ys)
  is_empty-append [] ys = refl
  is_empty-append (x ∷ xs) ys = refl

  length-keep : (p : A → Bool) (xs : List A) → length (keep p xs) ≡ count p xs
  length-keep p [] = refl
  length-keep p (x ∷ xs) = ground (arith, length-keep p xs)

  pub count-append : (p : A → Bool) (xs ys : List A) → count p (xs ++ ys) ≡ count p xs + count p ys
  count-append p [] ys = omega arith
  count-append p (x ∷ xs) ys = ground (arith, count-append p xs ys)

  pub count-le-length : (p : A → Bool) (xs : List A) → count p xs ≤ length xs
  count-le-length p [] = omega arith
  count-le-length p (x ∷ xs) = ground (arith, count-le-length p xs)

module _ {ℓ κ} {A : Type ℓ} (P : A → Type κ) where
  abbrev pub All : List A → Type κ
  All [] = Unit
  All (x ∷ xs) = P x × All xs

module _ {ℓ κ} {A : Type ℓ} (P : A → Type κ) where
  pub All-append : (xs ys : List A) → All P xs → All P ys → All P (xs ++ ys)
  All-append [] ys hx hy = hy
  All-append (x ∷ xs) ys hx hy = (hx.0, All-append xs ys hx.1 hy)

module _ {ℓ} {A : Type ℓ} where
  all_at : (p : A → Bool) {a : A} (xs : List A) → Memᴰ a xs → all p xs ≡ true → p a ≡ true
  all_at p [] m h = elim m [ ]
  all_at p (x ∷ xs) (Memᴰ.head e) h = rw e (ground arith)
  all_at p (x ∷ xs) (Memᴰ.tail m) h = all_at p xs m (ground arith)

  pub mem-cons_cases : {a x : A} {xs : List A} → Memᴰ a (x ∷ xs) → (a ≡ x) ⊎ Memᴰ a xs
  mem-cons_cases (Memᴰ.head e) = inl e
  mem-cons_cases (Memᴰ.tail m) = inr m

  pub All-at {κ} : (P : A → Type κ) {a : A} (xs : List A) → All P xs → Memᴰ a xs → P a
  All-at P [] h m = elim m [ ]
  All-at P (x ∷ xs) h (Memᴰ.head e) = subst P (sym e) h.0
  All-at P (x ∷ xs) h (Memᴰ.tail m) = All-at P xs h.1 m

  pub All-of_each {κ} : (P : A → Type κ) (xs : List A) → ((a : A) → Memᴰ a xs → P a) → All P xs
  All-of_each P [] h = tt
  All-of_each P (x ∷ xs) h = (h x (Memᴰ.head refl), All-of_each P xs (λ a m. h a (Memᴰ.tail m)))

  pub mem-keep : (p : A → Bool) {a : A} (xs : List A) → Memᴰ a xs → p a ≡ true → Memᴰ a (keep p xs)
  mem-keep p [] m h = elim m [ ]
  mem-keep p {a} (x ∷ xs) m h =
      elim (p x) as (λ b. p x ≡ b → Memᴰ a (cond b (x ∷ keep p xs) (keep p xs))) [
        | true ↦ λ e. elim (mem-cons_cases m) [
          | inl same ↦ Memᴰ.head same
          | inr later ↦ Memᴰ.tail (mem-keep p xs later h)
        ]
        | false ↦ λ e. elim (mem-cons_cases m) [
          | inl same ↦ absurd (cc)
          | inr later ↦ mem-keep p xs later h
        ]
      ]
        refl

  pub mem_of_mem-keep :
      (p : A → Bool) {a : A} (xs : List A) → Memᴰ a (keep p xs) → Memᴰ a xs × (p a ≡ true)
  mem_of_mem-keep p [] m = elim m [ ]
  mem_of_mem-keep p {a} (x ∷ xs) m =
      elim (p x)
          as (λ b.
            p x ≡ b
            → Memᴰ a (cond b (x ∷ keep p xs) (keep p xs))
            → Memᴰ a (x ∷ xs) × (p a ≡ true)) [
              | true ↦ λ e kept. elim (mem-cons_cases kept) [
                | inl same ↦ (Memᴰ.head same, cc)
                | inr later ↦
                    let (there, holds) = mem_of_mem-keep p xs later in (Memᴰ.tail there, holds)
              ]
              | false ↦ λ e kept.
                  let (there, holds) = mem_of_mem-keep p xs kept in (Memᴰ.tail there, holds)
            ]
        refl m

  -- A list is empty, or it has a first member.
  pub List-cases : (xs : List A) → (xs ≡ []) ⊎ ((x : A) × (ys : List A) × (xs ≡ x ∷ ys))
  List-cases [] = inl refl
  List-cases (x ∷ xs) = inr (x, xs, refl)

  pub keep-eq-nil : (p : A → Bool) {a : A} (xs : List A) → keep p xs ≡ [] → Memᴰ a xs → p a ≡ false
  keep-eq-nil p [] h m = elim m [ ]
  keep-eq-nil p (x ∷ xs) h m = elim (mem-cons_cases m) [
    | inl same ↦ rw same (ground arith)
    | inr later ↦ keep-eq-nil p xs (ground arith) later
  ]

  keep-nil_of_each :
      (p : A → Bool) (xs : List A) → ((a : A) → Memᴰ a xs → p a ≡ false) → keep p xs ≡ []
  keep-nil_of_each p [] h = refl
  keep-nil_of_each p (x ∷ xs) h =
      ground (arith, h x (Memᴰ.head refl), keep-nil_of_each p xs (λ a m. h a (Memᴰ.tail m)))

  pub all_fails :
      (p : A → Bool) (xs : List A) → all p xs ≡ false → (a : A) × Memᴰ a xs × (p a ≡ false)
  all_fails p [] h = absurd (cc)
  all_fails p (x ∷ xs) h =
      elim (p x)
          as (λ b. p x ≡ b → (b && all p xs) ≡ false → (a : A) × Memᴰ a (x ∷ xs) × (p a ≡ false)) [
            | true ↦ λ e h'. let (a, m, f) = all_fails p xs h' in (a, Memᴰ.tail m, f)
            | false ↦ λ e h'. (x, Memᴰ.head refl, e)
          ]
        refl h

  pub all_of_each :
      (p : A → Bool) (xs : List A) → ((a : A) → Memᴰ a xs → p a ≡ true) → all p xs ≡ true
  all_of_each p [] h = refl
  all_of_each p (x ∷ xs) h =
      ground (arith, h x (Memᴰ.head refl), all_of_each p xs (λ a m. h a (Memᴰ.tail m)))

  pub all-false_at :
      (p : A → Bool) {a : A} (xs : List A) → Memᴰ a xs → p a ≡ false → all p xs ≡ false
  all-false_at p [] m h = elim m [ ]
  all-false_at p (x ∷ xs) m h = elim (mem-cons_cases m) [
    | inl same ↦ let here : p x ≡ false = cc in rw here
    | inr later ↦ ground (arith, all-false_at p xs later h)
  ]

module _ {ℓ κ} {A : Type ℓ} {B : Type κ} where
  pub mem-map :
      (f : A → B) (xs : List A) {b : B} → Memᴰ b (map f xs) → (a : A) × Memᴰ a xs × (b ≡ f a)
  mem-map f [] m = elim m [ ]
  mem-map f (x ∷ xs) m = elim (mem-cons_cases m) [
    | inl first ↦ (x, Memᴰ.head refl, first)
    | inr later ↦ let (a, there, e) = mem-map f xs later in (a, Memᴰ.tail there, e)
  ]
