-- ===== src/Base/Base64.antt =====
-- encoding/base64 `StdEncoding`: bytes to text and back.
pub mod Laws
use Prim.Native.Char.{Char, code}
use Prim.Native.String.{char_at}
use nvmeof_csi.Base.Tests.{leb, ◌==◌, nat_eq, if◌then◌else◌}
use Prim.Native.Nat.{ℕ, ◌+◌, ◌-◌, ◌*◌, ◌/◌, ◌%◌}
use Prim.Native.String.{String}
use mathlib.Core.Bool.{◌&&◌, ◌||◌}
use mathlib.Core.Option.{Option, none, some}
use mathlib.Core.List.{List, [], ◌∷◌}

-- The letter of a number below 64.
unfoldable pub letter : ℕ → Char
letter i = char_at "ABCDEFGHIJKLMNOPQRSTUVWXYZabcdefghijklmnopqrstuvwxyz0123456789+/" i

-- The number of a letter.
unfoldable pub sextet : ℕ → Option ℕ
sextet c =
    if leb 65 c && leb c 90
    then some (c - 65)
    else if leb 97 c && leb c 122
    then some (c - 71)
    else if leb 48 c && leb c 57
    then some (c + 4)
    else if c == 43
    then some 62
    else if c == 47
    then some 63
    else none

-- EncodeToString: three bytes are four letters, and `=` fills the last four.
unfoldable pub encode : List ℕ → String
encode [] = String.[]
encode (a ∷ []) = String.◌∷◌ (letter (a / 4)) (String.◌∷◌ (letter (a % 4 * 16)) "==")
encode (a ∷ b ∷ []) =
    String.◌∷◌ (letter (a / 4))
      (String.◌∷◌ (letter (a % 4 * 16 + b / 16)) (String.◌∷◌ (letter (b % 16 * 4)) "="))
encode (a ∷ b ∷ c ∷ bytes) = String.◌∷◌ (letter (a / 4)) (
    String.◌∷◌ (letter (a % 4 * 16 + b / 16))
      (String.◌∷◌ (letter (b % 16 * 4 + c / 64)) (String.◌∷◌ (letter (c % 64)) (encode bytes))))

-- DecodeString skips line ends.
unfoldable pub drop_line_ends : String → String
drop_line_ends String.[] = String.[]
drop_line_ends (String.◌∷◌ c s) =
    let rest = drop_line_ends s in if code c == 10 || code c == 13 then rest else String.◌∷◌ c rest

-- The last four letters where the fourth, or the third and the fourth, are `=`: nothing may follow.
unfoldable pub padded : ℕ → ℕ → ℕ → String → Option (List ℕ)
padded x y c String.[] = if c == 61 then some ((x * 4 + y / 16) ∷ []) else elim (sextet c) [
  | none ↦ none
  | some z ↦ some ((x * 4 + y / 16) ∷ (y % 16 * 16 + z / 4) ∷ [])
]
padded x y c (String.◌∷◌ d s) = none

-- Four letters with none of them `=`, in front of the bytes that the rest stands for.
unfoldable pub full : ℕ → ℕ → ℕ → ℕ → Option (List ℕ) → Option (List ℕ)
full x y c d none = none
full x y c d (some bytes) = elim (sextet c) [
  | none ↦ none
  | some z ↦ elim (sextet d) [
    | none ↦ none
    | some w ↦ some ((x * 4 + y / 16) ∷ (y % 16 * 16 + z / 4) ∷ (z % 4 * 64 + w) ∷ bytes)
  ]
]

-- Groups of four. `none` is a CorruptInputError.
unfoldable pub decode_groups : String → Option (List ℕ)
decode_groups String.[] = some []
decode_groups (String.◌∷◌ a (String.◌∷◌ b (String.◌∷◌ c (String.◌∷◌ d s)))) =
    let rest = decode_groups s in
    elim (sextet (code a)) [
      | none ↦ none
      | some x ↦ elim (sextet (code b)) [
        | none ↦ none
        | some y ↦ if code d == 61 then padded x y (code c) s else full x y (code c) (code d) rest
      ]
    ]
decode_groups _ = none

unfoldable pub decode : String → Option (List ℕ)
decode s = decode_groups (drop_line_ends s)
