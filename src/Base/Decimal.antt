-- ===== src/Base/Decimal.antt =====
-- Decimal texts of numbers, as `%d` and strconv.FormatInt print them.
use Prim.Native.Nat.{ℕ, zero, suc, ◌+◌, ◌/◌, ◌%◌}
use Prim.Native.String.{String, char_at, ◌++◌ as ◌<>◌}
use mathlib.Core.Path.{◌≡◌, refl}
use nvmeof_csi.Base.Tests.{ltb, if◌then◌else◌}
use nvmeof_csi.Base.Int.{ℤ, pos, negsuc}

-- The digits of `n` in front of a text; the fuel bounds their number.
print_onto : ℕ → ℕ → String → String
print_onto zero n s = s
print_onto (suc fuel) n s =
    let rest = print_onto fuel (n / 10) (String.◌∷◌ (char_at "0123456789" (n % 10)) s) in
    if ltb n 10 then String.◌∷◌ (char_at "0123456789" n) s else rest

-- An int64 has at most 19 digits.
unfoldable pub print : ℕ → String
unfolding print_onto
print n = print_onto 20 n ""

unfoldable pub format_int : ℤ → String
unfolding print
format_int (pos n) = print n
format_int (negsuc n) = "-" <> print (n + 1)

format_int_min : format_int (negsuc 9223372036854775807) ≡ "-9223372036854775808"
unfolding format_int
format_int_min = refl

print_hundred : print 100 ≡ "100"
unfolding print
print_hundred = refl
