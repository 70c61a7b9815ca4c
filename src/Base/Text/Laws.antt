-- ===== src/Base/Text/Laws.antt =====
-- What `strip` and `split_once` return is part of the text.
use Prim.Native.Char.{code}
use Prim.Native.String.{String, ◌++◌ as ◌<>◌}
use mathlib.Core.Path.{◌≡◌, refl}
use mathlib.Core.Logic.{inl, inr}
use mathlib.Core.Option.{Option, some}
use native.Mathlib.Omega.{arith}
use text.Mathlib.TextEquality.{Char-path}
use text.Mathlib.TextLemmas.{cons-append, nil-append}
use nvmeof_csi.Base.Tests.{◌==◌, nat_eq, nat_beq_iff, Bool-cases, Option-cases}
use nvmeof_csi.Base.Text.{strip, split_once}

strip_sound : (s t : String) {r : String} → strip s t ≡ some r → s ≡ t <> r
unfolding strip
strip_sound s String.[] h = rw nil-append (ground arith)
strip_sound String.[] (String.◌∷◌ d t) h = cc
strip_sound (String.◌∷◌ c s) (String.◌∷◌ d t) {r} h = elim (Bool-cases (code c == code d)) [
  | inl same ↦
      rw
        (
          cons-append,
          ← strip_sound s t {r = r} (ground arith),
          Char-path c d ((nat_beq_iff _ _).0 same),
        )
        refl
  | inr other ↦ ground arith
]

split_here :
    (sep s r a b : String)
    → strip s sep ≡ some r
    → ◌≡◌ {A = Option (String × String)} (some (String.[], r)) (some (a, b))
    → s ≡ a <> (sep <> b)
split_here sep s r a b e h = ground (arith, strip_sound s sep e, nil-append (sep <> b))

pub split_once_sound :
    (sep s : String) {a b : String} → split_once sep s ≡ some (a, b) → s ≡ a <> (sep <> b)
unfolding split_once
split_once_sound sep String.[] {a} {b} h = elim (Option-cases (strip String.[] sep)) [
  | inl e ↦ ground (arith, e)
  | inr (r, e) ↦ split_here sep String.[] r a b e (ground (arith, e))
]
split_once_sound sep (String.◌∷◌ c s) {a} {b} h = elim (Option-cases (strip (String.◌∷◌ c s) sep)) [
  | inr (r, e) ↦ split_here sep (String.◌∷◌ c s) r a b e (ground (arith, e))
  | inl e ↦ elim (Option-cases (split_once sep s)) [
    | inl e' ↦ ground (arith, e, e')
    | inr ((a', b'), e') ↦
        ground (arith, e, e', split_once_sound sep s e', cons-append c a' (sep <> b'))
  ]
]
