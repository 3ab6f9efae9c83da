-- ===== src/Planning/Cycles/ById.antt =====
-- The dictionaries that `_detect_cycle` builds with the ids of the tasks as keys.
use rooben.Prelude.{
  ◌≡◌, refl, String, some, List, [], ◌∷◌, str_eq, eq_iff, Memᴰ, mem-cons_cases, arith, inl, inr,
  ◌⊎◌, Bool-cases,
}
use rooben.Dict.{Dict, get, put}
use rooben.Dict.Laws.{get-put, get-put_self}
use rooben.Domain.Models.{Task}
use rooben.Planning.Cycles.{by_id}

pub get-by_id_cases :
    {A : Type 0} (f : Task → A) (ts : List Task) (d : Dict A) (k : String) {v : A}
    → get (by_id f ts d) k ≡ some v
    → ((t : Task) × Memᴰ t ts × (t.id ≡ k) × (v ≡ f t)) ⊎ (get d k ≡ some v)
unfolding by_id
get-by_id_cases f [] d k e = inr e
get-by_id_cases f (t ∷ ts) d k {v} e = elim (get-by_id_cases f ts (put d t.id (f t)) k e) [
  | inl (u, later, own, same) ↦ inl (u, Memᴰ.tail later, own, same)
  | inr old ↦ elim (Bool-cases (str_eq t.id k)) [
    | inl here ↦
        inl (t, Memᴰ.head refl, (eq_iff t.id k).0 here, ground (arith, get-put d t.id k (f t)))
    | inr other ↦ inr (ground (arith, get-put d t.id k (f t)))
  ]
]

get-by_id_old :
    {A : Type 0} (f : Task → A) (ts : List Task) (d : Dict A) (k : String) {v : A}
    → get d k ≡ some v
    → (v' : A) × (get (by_id f ts d) k ≡ some v')
unfolding by_id
get-by_id_old f [] d k {v} e = (v, e)
get-by_id_old f (t ∷ ts) d k {v} e = elim (Bool-cases (str_eq t.id k)) [
  | inl here ↦
      get-by_id_old f ts (put d t.id (f t)) k {v = f t} (ground (arith, get-put d t.id k (f t)))
  | inr other ↦
      get-by_id_old f ts (put d t.id (f t)) k {v = v} (ground (arith, get-put d t.id k (f t)))
]

pub get-by_id :
    {A : Type 0} (f : Task → A) (ts : List Task) (d : Dict A) (t : Task)
    → Memᴰ t ts
    → (v : A) × (get (by_id f ts d) t.id ≡ some v)
unfolding by_id
get-by_id f [] d t m = elim m [ ]
get-by_id f (u ∷ ts) d t m = elim (mem-cons_cases m) [
  | inl here ↦
      rw here (get-by_id_old f ts (put d u.id (f u)) u.id {v = f u} (get-put_self d u.id (f u)))
  | inr later ↦ get-by_id f ts (put d u.id (f u)) t later
]
