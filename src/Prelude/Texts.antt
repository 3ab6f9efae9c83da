-- ===== src/Prelude/Texts.antt =====
-- Texts: their length, their beginnings, and the joining of a list of them.
use Prim.Native.Nat.{ℕ, zero, suc, ◌+◌, ◌≤◌}
use Prim.Native.String.{String}
use Prim.Native.String.append
use Prim.Native.String.{◌++◌ as str_append}
use mathlib.Core.Path.{◌≡◌, ap}
use mathlib.Core.List.{List, [], ◌∷◌}
use mathlib.Core.Bool.{Bool, true, false, cond}
use Prim.Native.Char.{code}
use rooben.Prelude.Tests.{◌==◌}
use text.Mathlib.Text.{◌==◌ as str_eq}
use native.Mathlib.Omega.{arith}

-- len(text)
unfoldable pub text_length : String → ℕ
text_length String.[] = 0
text_length (String.◌∷◌ c s) = suc (text_length s)

-- text[:n]
unfoldable pub prefix : ℕ → String → String
prefix zero s = ""
prefix (suc n) String.[] = ""
prefix (suc n) (String.◌∷◌ c s) = String.◌∷◌ c (prefix n s)

-- separator.join(texts)
unfoldable pub join : String → List String → String
join separator [] = ""
join separator (s ∷ []) = s
join separator (s ∷ (t ∷ ts)) = str_append s (str_append separator (join separator (t ∷ ts)))

-- The texts one after the other.
unfoldable pub concat : List String → String
concat [] = ""
concat (s ∷ ss) = str_append s (concat ss)

pub text_length-prefix : (n : ℕ) (s : String) → text_length (prefix n s) ≤ n
unfolding text_length prefix
text_length-prefix zero s = omega arith
text_length-prefix (suc n) String.[] = omega arith
text_length-prefix (suc n) (String.◌∷◌ c s) = omega (arith, text_length-prefix n s)

pub text_length-append :
    (s t : String) → text_length (str_append s t) ≡ text_length s + text_length t
unfolding text_length
text_length-append String.[] t = omega (arith, ap text_length (append.nil t))
text_length-append (String.◌∷◌ c s) t =
    omega (arith, ap text_length (append.cons c s t), text_length-append s t)

-- s.startswith(t)
unfoldable pub starts_with : String → String → Bool
starts_with s String.[] = true
starts_with String.[] (String.◌∷◌ d t) = false
starts_with (String.◌∷◌ c s) (String.◌∷◌ d t) =
    let rest = starts_with s t in cond (code c == code d) rest false

-- t in s
unfoldable pub occurs : String → String → Bool
unfolding starts_with
occurs t String.[] = starts_with "" t
occurs t (String.◌∷◌ c s) =
    let later = occurs t s in cond (starts_with (String.◌∷◌ c s) t) true later

-- s.endswith(t)
unfoldable pub ends_with : String → String → Bool
ends_with String.[] t = str_eq "" t
ends_with (String.◌∷◌ c s) t =
    let later = ends_with s t in cond (str_eq (String.◌∷◌ c s) t) true later
