-- ===== src/Base/Text.antt =====
-- What the code takes from package strings. Lower-casing and white space are those of ASCII.
pub mod Laws
use Prim.Native.Char.{Char, code}
use Prim.Native.String.{String, char_at}
use mathlib.Core.Bool.{Bool, true, false, ◌&&◌, ◌||◌}
use mathlib.Core.Option.{Option, none, some}
use mathlib.Core.List.{List, [], ◌∷◌, map, reverse}
use Prim.Native.Nat.{ℕ, ◌+◌, ◌-◌}
use nvmeof_csi.Base.Tests.{leb, ◌==◌, nat_eq, if◌then◌else◌}

-- The code points of a text.
abbrev pub codes : String → List ℕ
codes String.[] = []
codes (String.◌∷◌ c s) = code c ∷ codes s

-- The letter of a number below 26.
unfoldable pub small_letter : ℕ → Char
small_letter i = char_at "abcdefghijklmnopqrstuvwxyz" i

-- strings.ToLower
unfoldable pub lower_text : String → String
unfolding small_letter
lower_text String.[] = String.[]
lower_text (String.◌∷◌ c s) =
    String.◌∷◌ (if leb 65 (code c) && leb (code c) 90 then small_letter (code c - 65) else c)
      (lower_text s)

unfoldable pub to_lower : String → List ℕ
unfolding lower_text
to_lower s = codes (lower_text s)

-- strings.HasPrefix
unfoldable pub has_prefix : List ℕ → List ℕ → Bool
has_prefix s [] = true
has_prefix [] (d ∷ t) = false
has_prefix (c ∷ s) (d ∷ t) = c == d && has_prefix s t

-- strings.Contains
unfoldable pub contains : List ℕ → List ℕ → Bool
unfolding has_prefix
contains [] t = has_prefix [] t
contains (c ∷ s) t = has_prefix (c ∷ s) t || contains s t

unfoldable pub drop_prefix : List ℕ → List ℕ → Option (List ℕ)
drop_prefix s [] = some s
drop_prefix [] (d ∷ t) = none
drop_prefix (c ∷ s) (d ∷ t) = if c == d then drop_prefix s t else none

-- strings.TrimPrefix
unfoldable pub trim_prefix : List ℕ → List ℕ → List ℕ
unfolding drop_prefix
trim_prefix s t = elim (drop_prefix s t) [ none ↦ s | some r ↦ r ]

-- The white space of `unicode.IsSpace` below 128.
unfoldable pub is_space : ℕ → Bool
is_space c = (leb 9 c && leb c 13) || c == 32

unfoldable pub trim_left : List ℕ → List ℕ
unfolding is_space
trim_left [] = []
trim_left (c ∷ s) = let rest = trim_left s in if is_space c then rest else c ∷ s

-- strings.TrimSpace
unfoldable pub trim_space : List ℕ → List ℕ
unfolding trim_left
trim_space s = reverse (trim_left (reverse (trim_left s)))

-- What is left of `s` behind `t`, if it begins with `t`.
unfoldable pub strip : String → String → Option String
strip s String.[] = some s
strip String.[] (String.◌∷◌ d t) = none
strip (String.◌∷◌ c s) (String.◌∷◌ d t) =
    let rest = strip s t in if code c == code d then rest else none

-- strings.SplitN(s, sep, 2) where `sep` occurs: what stands before its first place, and behind it.
unfoldable pub split_once : String → String → Option (String × String)
unfolding strip
split_once sep String.[] = elim (strip String.[] sep) [ none ↦ none | some r ↦ some (String.[], r) ]
split_once sep (String.◌∷◌ c s) =
    let rest = split_once sep s in
    elim (strip (String.◌∷◌ c s) sep) [
      | some r ↦ some (String.[], r)
      | none ↦ elim rest [ none ↦ none | some (a, b) ↦ some (String.◌∷◌ c a, b) ]
    ]
