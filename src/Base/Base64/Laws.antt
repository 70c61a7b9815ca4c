-- ===== src/Base/Base64/Laws.antt =====
-- Decoding undoes encoding.
use Prim.Native.Char.{Char, code}
use Prim.Native.String.{String}
use Prim.Native.Nat.{ℕ, zero, suc, ◌+◌, ◌*◌, ◌/◌, ◌%◌, ◌<◌}
use mathlib.Core.Path.{◌≡◌, ◌∙◌, refl}
use mathlib.Core.Logic.{◌≢◌}
use mathlib.Core.Bool.{Bool, true, ◌&&◌, not, ◌||◌}
use mathlib.Core.Option.{none, some}
use mathlib.Core.List.{List, [], ◌∷◌}
use native.Mathlib.Omega.{arith}
use nvmeof_csi.Base.Tests.{◌==◌, nat_eq, if◌then◌else◌}
use nvmeof_csi.Base.Base64.{
  letter, sextet, encode, drop_line_ends, padded, full, decode_groups, decode,
}

holds_up_to : (ℕ → Bool) → ℕ → Bool
holds_up_to p zero = Bool.true
holds_up_to p (suc i) = if p i then holds_up_to p i else Bool.false

holds_below : (p : ℕ → Bool) {i : ℕ} (n : ℕ) → i < n → holds_up_to p n ≡ Bool.true → p i ≡ Bool.true
unfolding holds_up_to
holds_below p zero below all = absurd (omega arith)
holds_below p {i = i} (suc n) below all = ground (arith, holds_below p {i = i} n)

-- A letter stands for its number, and is neither `=` nor a line end.
abbrev is_proper : ℕ → Bool
is_proper i = elim (sextet (code (letter i))) [
  | none ↦ Bool.false
  | some v ↦
      v == i && not (code (letter i) == 61) && not (code (letter i) == 10 || code (letter i) == 13)
]

letters_proper : holds_up_to is_proper 64 ≡ true
unfolding holds_up_to sextet letter
letters_proper = refl

sextet-letter : (i : ℕ) → i < 64 → sextet (code (letter i)) ≡ some i
sextet-letter i h = ground (arith, holds_below is_proper {i = i} 64 h letters_proper)

letter_plain :
    (i : ℕ)
    → i < 64
    → ((code (letter i) == 61) ≡ Bool.false)
      × ((code (letter i) == 10 || code (letter i) == 13) ≡ Bool.false)
letter_plain i h = ground (arith, holds_below is_proper {i = i} 64 h letters_proper)

abbrev pub AreBytes : List ℕ → Type 0
AreBytes [] = Unit
AreBytes (b ∷ bytes) = (b < 256) × AreBytes bytes

-- The encoded text has no line end to drop.
drop_line_ends-encode :
    (bytes : List ℕ) → AreBytes bytes → drop_line_ends (encode bytes) ≡ encode bytes
unfolding encode drop_line_ends
drop_line_ends-encode [] h = refl
drop_line_ends-encode (a ∷ []) h =
    rw ((letter_plain (a / 4) (omega arith)).1, (letter_plain (a % 4 * 16) (omega arith)).1) refl
drop_line_ends-encode (a ∷ b ∷ []) h =
    rw
      (
        (letter_plain (a / 4) (omega arith)).1,
        (letter_plain (a % 4 * 16 + b / 16) (omega arith)).1,
        (letter_plain (b % 16 * 4) (omega arith)).1,
      )
      refl
drop_line_ends-encode (a ∷ b ∷ c ∷ bytes) h =
    rw
      (
        (letter_plain (a / 4) (omega arith)).1,
        (letter_plain (a % 4 * 16 + b / 16) (omega arith)).1,
        (letter_plain (b % 16 * 4 + c / 64) (omega arith)).1,
        (letter_plain (c % 64) (omega arith)).1,
        drop_line_ends-encode bytes h.1.1.1,
      )
      refl

group :
    (a b c d : Char) (s : String) (x y : ℕ)
    → sextet (code a) ≡ some x
    → sextet (code b) ≡ some y
    → decode_groups (String.◌∷◌ a (String.◌∷◌ b (String.◌∷◌ c (String.◌∷◌ d s)))) ≡ (
        if code d == 61
        then padded x y (code c) s
        else full x y (code c) (code d) (decode_groups s))
unfolding decode_groups
group a b c d s x y ha hb = rw (ha, hb, decode_groups) refl

-- Three bytes come back from their four letters.
full-letter :
    (a b c : ℕ) (bytes : List ℕ)
    → b < 256
    → c < 256
    → full
        (a / 4)
        (a % 4 * 16 + b / 16)
        (code (letter (b % 16 * 4 + c / 64)))
        (code (letter (c % 64)))
        (some bytes)
      ≡ some (a ∷ b ∷ c ∷ bytes)
unfolding full
full-letter a b c bytes h k =
    rw
      (
        sextet-letter (b % 16 * 4 + c / 64) (omega arith),
        sextet-letter (c % 64) (omega arith),
        full,
      )
      (ground arith)

decode_groups-encode : (bytes : List ℕ) → AreBytes bytes → decode_groups (encode bytes) ≡ some bytes
unfolding encode
decode_groups-encode [] h = unfold decode_groups in refl
decode_groups-encode (a ∷ []) h =
    group (letter (a / 4)) (letter (a % 4 * 16)) "=" "=" "" _ _
      (sextet-letter (a / 4) (omega arith)) (sextet-letter (a % 4 * 16) (omega arith))
    ∙ (unfold padded in ground arith)
decode_groups-encode (a ∷ b ∷ []) h =
    group (letter (a / 4)) (letter (a % 4 * 16 + b / 16)) (letter (b % 16 * 4)) "=" "" _ _
      (sextet-letter (a / 4) (omega arith)) (sextet-letter (a % 4 * 16 + b / 16) (omega arith))
    ∙ (unfold padded in
        rw ((letter_plain (b % 16 * 4) (omega arith)).0, sextet-letter (b % 16 * 4) (omega arith))
          (ground arith))
decode_groups-encode (a ∷ b ∷ c ∷ bytes) h =
    group (letter (a / 4)) (letter (a % 4 * 16 + b / 16)) (letter (b % 16 * 4 + c / 64))
      (letter (c % 64)) (encode bytes) _ _ (sextet-letter (a / 4) (omega arith))
      (sextet-letter (a % 4 * 16 + b / 16) (omega arith))
    ∙ rw ((letter_plain (c % 64) (omega arith)).0, decode_groups-encode bytes h.1.1.1)
        (full-letter a b c bytes h.1.0 h.1.1.0)

-- DecodeString gives back the bytes that EncodeToString was given.
pub decode-encode : (bytes : List ℕ) → AreBytes bytes → decode (encode bytes) ≡ some bytes
unfolding decode
decode-encode bytes h = rw (drop_line_ends-encode bytes h) (decode_groups-encode bytes h)

pub encode-cons_ne-nil : (b : ℕ) (bytes : List ℕ) → encode (b ∷ bytes) ≢ ""
unfolding encode
encode-cons_ne-nil b [] h = cc
encode-cons_ne-nil b (c ∷ []) h = cc
encode-cons_ne-nil b (c ∷ d ∷ bytes) h = cc
