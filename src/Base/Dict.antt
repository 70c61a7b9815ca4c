-- ===== src/Base/Dict.antt =====
-- Go's `map[string]string` as an association list, the latest entry first.
use Prim.Native.String.{String}
use mathlib.Core.Path.{◌≡◌, refl}
use mathlib.Core.Option.{Option, none, some}
use mathlib.Core.List.{List, [], ◌∷◌}
use native.Mathlib.Omega.{arith}
use text.Mathlib.TextEquality.{eq_iff}
use nvmeof_csi.Base.Tests.{◌==◌, string_eq, if◌then◌else◌}

abbrev pub Dict : Type 0
Dict = List (String × String)

-- `v, ok := m[k]`
unfoldable pub lookup : String → Dict → Option String
lookup k [] = none
lookup k ((j, v) ∷ m) = if j == k then some v else lookup k m

-- `m[k]`: the zero value where the key is missing
unfoldable pub index : String → Dict → String
unfolding lookup
index k m = elim (lookup k m) [ none ↦ "" | some v ↦ v ]

-- `m[k] = v`
unfoldable pub insert : String → String → Dict → Dict
insert k v [] = (k, v) ∷ []
insert k v ((j, w) ∷ m) = if j == k then (k, v) ∷ m else (j, w) ∷ insert k v m

-- `for k, v := range from { onto[k] = v }`
unfoldable pub merge : Dict → Dict → Dict
merge [] onto = onto
merge ((k, v) ∷ from) onto = merge from (insert k v onto)

-- An assignment to one key is seen under that key, and under no other.
pub lookup-insert :
    (m : Dict) (key text at : String)
    → lookup at (insert key text m) ≡ (if key == at then some text else lookup at m)
unfolding lookup insert
lookup-insert [] key text at = refl
lookup-insert ((first, held) ∷ rest) key text at =
    ground (arith, lookup-insert rest key text at, eq_iff first at, eq_iff first key, eq_iff key at)

pub lookup-nil : (k : String) → lookup k [] ≡ none
unfolding lookup
lookup-nil k = refl

lookup-cons :
    (k j v : String) (m : Dict) → lookup j ((k, v) ∷ m) ≡ (if k == j then some v else lookup j m)
unfolding lookup
lookup-cons k j v m = refl

-- A Go map has one entry for a key.
abbrev pub NodupKeys : Dict → Type 0
NodupKeys [] = Unit
NodupKeys ((k, _) ∷ m) = (lookup k m ≡ none) × NodupKeys m

abbrev pub or_else : Option String → Option String → Option String
or_else none o = o
or_else (some v) o = some v

-- After a merge the source's entries win, and the others are kept.
pub lookup-merge :
    (from onto : Dict) (j : String)
    → NodupKeys from
    → lookup j (merge from onto) ≡ or_else (lookup j from) (lookup j onto)
unfolding merge
lookup-merge [] onto j h = ground (arith, lookup-nil j)
lookup-merge ((k, v) ∷ from) onto j h = ground (
  arith,
  eq_iff k j,
  lookup-cons k j v from,
  lookup-insert onto k v j,
  lookup-merge from (insert k v onto) j h.1,
)
