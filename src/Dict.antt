-- ===== src/Dict.antt =====
-- Python's `dict` with string keys: an association list in insertion order. A write to a key that is
-- there keeps the key's place, as in CPython; a new key comes last.
pub mod Laws
pub mod Keyed
use rooben.Prelude.{String, Option, none, some, Bool, true, false, List, [], ◌∷◌, str_eq, cond, map}

abbrev pub Dict {ℓ} : Type ℓ → Type ℓ
Dict V = List (String × V)

module _ {ℓ} {V : Type ℓ} where
  -- d.get(k)
  unfoldable pub get : Dict V → String → Option V
  get [] k = none
  get ((j, v) ∷ d) k = cond (str_eq j k) (some v) (get d k)

  -- k in d
  unfoldable pub has : Dict V → String → Bool
  has [] k = false
  has ((j, v) ∷ d) k = cond (str_eq j k) true (has d k)

  -- d[k] = v
  unfoldable pub put : Dict V → String → V → Dict V
  put [] k v = (k, v) ∷ []
  put ((j, w) ∷ d) k v = cond (str_eq j k) ((j, v) ∷ d) ((j, w) ∷ put d k v)

  -- d.pop(k, None)
  unfoldable pub remove : Dict V → String → Dict V
  remove [] k = []
  remove ((j, w) ∷ d) k = cond (str_eq j k) d ((j, w) ∷ remove d k)

  -- list(d.values())
  unfoldable pub values : Dict V → List V
  values [] = []
  values ((k, v) ∷ d) = v ∷ values d

  -- `for v in d.values():` where the body changes the object `v` in place.
  unfoldable pub map_values : (V → V) → Dict V → Dict V
  map_values f [] = []
  map_values f ((k, v) ∷ d) = (k, f v) ∷ map_values f d

  -- list(d.keys())
  unfoldable pub keys : Dict V → List String
  keys [] = []
  keys ((k, v) ∷ d) = k ∷ keys d
