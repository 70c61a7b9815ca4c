-- ===== src/Util/Device/Name.antt =====
-- util/util.go: the two regular expressions that make a device name of a path.
pub mod Matching
pub mod Counters
pub mod Laws
use Prim.Native.Char.{Char, code}
use nvmeof_csi.Base.{
  ℕ, String, ◌<>◌, Bool, true, false, ◌&&◌, ◌||◌, Option, none, some, ◌==◌, nat_eq, leb,
  if◌then◌else◌,
}
use nvmeof_csi.Base.Text.{strip}

-- `\d`
abbrev pub is_digit : Char → Bool
is_digit c = leb 48 (code c) && leb (code c) 57

-- The digits at the start of a text, and what follows them.
unfoldable pub span_digits : String → String × String
span_digits String.[] = (String.[], String.[])
span_digits (String.◌∷◌ c s) =
    let (digits, rest) = span_digits s in
    if is_digit c then (String.◌∷◌ c digits, rest) else (String.[], String.◌∷◌ c s)

-- `(\d+)`, which takes all the digits: no pattern here goes on with a digit.
unfoldable pub number : String → Option (String × String)
unfolding span_digits
number s =
    let (digits, rest) = span_digits s in
    elim digits [ String.[] ↦ none | String.◌∷◌ c t ↦ some (String.◌∷◌ c t, rest) ]

abbrev both : {A B : Type 0} → Option A → (A → Option B) → Option B
both none f = none
both (some a) f = f a

-- A text, a number, and the rest, with the matched part.
unfoldable pub tagged : String → String → Option (String × String)
unfolding strip number
tagged tag s =
    both (strip s tag) (λ rest. both (number rest) (λ (digits, left). some (tag <> digits, left)))

-- `nvme(\d+)n(\d+)` at the start of a text
unfoldable pub short_name : String → Option String
unfolding tagged
short_name s = both (tagged "nvme" s) (λ (a, r). both (tagged "n" r) (λ (b, _). some (a <> b)))

-- `nvme(\d+)c(\d+)n(\d+)` at the start of a text
unfoldable pub long_name : String → Option String
unfolding tagged
long_name s =
    both (tagged "nvme" s) (λ (a, r).
      both (tagged "c" r) (λ (b, q). both (tagged "n" q) (λ (d, _). some (a <> (b <> d)))))

-- The alternatives of `nvmeReDeviceSysFileName`, the first one first.
unfoldable pub name_at : String → Option String
unfolding short_name long_name
name_at s = elim (short_name s) [ some m ↦ some m | none ↦ long_name s ]

-- nvmeReDeviceSysFileName.FindString: the leftmost match, or the empty text.
unfoldable pub find_name : String → String
unfolding name_at
find_name String.[] = ""
find_name (String.◌∷◌ c s) =
    let rest = find_name s in elim (name_at (String.◌∷◌ c s)) [ some m ↦ m | none ↦ rest ]

abbrev pub starts_digit : String → Bool
starts_digit String.[] = false
starts_digit (String.◌∷◌ c s) = is_digit c

-- nvmeReDeviceName.ReplaceAllString(s, ""): each `c` with the digits behind it goes. The flag says
-- that the digits of a match are being passed.
unfoldable pub drop_counters : Bool → String → String
drop_counters passing String.[] = String.[]
drop_counters passing (String.◌∷◌ c s) =
    let dropped = (passing && is_digit c) || (code c == 99 && starts_digit s) in
    let rest = drop_counters dropped s in if dropped then rest else String.◌∷◌ c rest

-- The device name that a path of sysfs has in it.
unfoldable pub device_name : String → String
unfolding find_name drop_counters
device_name path = drop_counters false (find_name path)
