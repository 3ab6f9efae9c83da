-- ===== src/Planning/Cycles/Closed.antt =====
-- The path that `_detect_cycle` reads back along the parents, turned round.
use rooben.Prelude.{◌≡◌, refl, sym, ap, ◌∙◌, subst, String, List, [], ◌∷◌, ◌++◌, map}
use rooben.Dict.{Dict}
use rooben.Planning.Cycles.{reverse, name_of}
use rooben.Planning.Cycles.Chain.{IsEdge, IsDown}

reverse-snoc : {A : Type 0} (xs : List A) (x : A) → reverse (xs ++ x ∷ []) ≡ x ∷ reverse xs
unfolding reverse
reverse-snoc [] x = refl
reverse-snoc (y ∷ xs) x = ap (λ l. l ++ y ∷ []) (reverse-snoc xs x)

map-snoc :
    {A B : Type 0} (f : A → B) (xs : List A) (x : A) → map f (xs ++ x ∷ []) ≡ map f xs ++ f x ∷ []
map-snoc f [] x = refl
map-snoc f (y ∷ xs) x = ap (λ l. f y ∷ l) (map-snoc f xs x)

map-reverse : {A B : Type 0} (f : A → B) (xs : List A) → map f (reverse xs) ≡ reverse (map f xs)
unfolding reverse
map-reverse f [] = refl
map-reverse f (x ∷ xs) = map-snoc f (reverse xs) x ∙ ap (λ l. l ++ f x ∷ []) (map-reverse f xs)

module _ (graph : Dict (List String)) where
  -- Each node has an edge to the one behind it.
  abbrev pub IsPath : List String → Type 0
  IsPath [] = Unit
  IsPath (a ∷ []) = Unit
  IsPath (a ∷ b ∷ ns) = IsEdge graph a b × IsPath (b ∷ ns)

  IsPath-snoc :
      (ns : List String) (a b : String)
      → IsPath (ns ++ a ∷ [])
      → IsEdge graph a b
      → IsPath ((ns ++ a ∷ []) ++ b ∷ [])
  IsPath-snoc [] a b h edge = (edge, tt)
  IsPath-snoc (n ∷ []) a b h edge = (h.0, (edge, tt))
  IsPath-snoc (n ∷ m ∷ ns) a b h edge = (h.0, IsPath-snoc (m ∷ ns) a b h.1 edge)

  IsPath-reverse : (ns : List String) → IsDown graph ns → IsPath (reverse ns)
  unfolding reverse
  IsPath-reverse [] h = tt
  IsPath-reverse (b ∷ []) h = tt
  IsPath-reverse (b ∷ a ∷ ns) h = IsPath-snoc (reverse ns) a b (IsPath-reverse (a ∷ ns) h.1) h.0

  -- The titles of a path that ends where it begins.
  abbrev pub IsLoop : Dict String → List String → Type 0
  IsLoop names c =
      (x : String) × (inner : List String) × IsPath (x ∷ (inner ++ x ∷ []))
      × (c ≡ map (name_of names) (x ∷ (inner ++ x ∷ [])))

  pub reverse-IsLoop :
      (names : Dict String) (x : String) (path : List String)
      → IsDown graph (x ∷ (path ++ x ∷ []))
      → IsLoop names
          (reverse (name_of names x ∷ (map (name_of names) path ++ name_of names x ∷ [])))
  unfolding reverse
  reverse-IsLoop names x path down =
      let turned : reverse (x ∷ (path ++ x ∷ [])) ≡ x ∷ (reverse path ++ x ∷ []) =
        ap (λ l. l ++ x ∷ []) (reverse-snoc path x) in
      (
        x,
        reverse path,
        subst IsPath turned (IsPath-reverse (x ∷ (path ++ x ∷ [])) down),
        ap (λ l. reverse (name_of names x ∷ l)) (sym (map-snoc (name_of names) path x))
            ∙ sym (map-reverse (name_of names) (x ∷ (path ++ x ∷ [])))
            ∙ ap (map (name_of names)) turned,
      )
