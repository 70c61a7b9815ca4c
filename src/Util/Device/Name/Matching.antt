-- ===== src/Util/Device/Name/Matching.antt =====
-- util/util.go: the device name that the first expression finds in the path of a uuid file.
use Prim.Native.Char.{Char, code}
use text.Mathlib.TextLemmas.{cons-append, nil-append}
use nvmeof_csi.Base.{String, ◌<>◌, ◌≡◌, ◌≢◌, refl, ◌∙◌, true, false, none, some, arith, nat_eq}
use nvmeof_csi.Base.Text.{strip}
use nvmeof_csi.Util.Device.Name.{
  is_digit, span_digits, number, tagged, short_name, long_name, name_at, find_name,
}

-- A text of digits.
abbrev pub AllDigits : String → Type 0
AllDigits String.[] = Unit
AllDigits (String.◌∷◌ c s) = (is_digit c ≡ true) × AllDigits s

abbrev pub IsNumber : String → Type 0
IsNumber String.[] = ⊥
IsNumber (String.◌∷◌ c s) = (is_digit c ≡ true) × AllDigits s

-- A text without the letter `n`.
abbrev pub LacksN : String → Type 0
LacksN String.[] = Unit
LacksN (String.◌∷◌ c s) = (code c ≢ b'n') × LacksN s

span_digits-append :
    (a : String) (c : Char) (r : String)
    → AllDigits a
    → is_digit c ≡ false
    → span_digits (a <> String.◌∷◌ c r) ≡ (a, String.◌∷◌ c r)
unfolding span_digits
span_digits-append String.[] c r h k = rw nil-append (ground arith)
span_digits-append (String.◌∷◌ d a) c r (h, hs) k =
    rw (cons-append d a (String.◌∷◌ c r)) (ground (arith, span_digits-append a c r hs k))

number-append :
    (a : String) (c : Char) (r : String)
    → IsNumber a
    → is_digit c ≡ false
    → number (a <> String.◌∷◌ c r) ≡ some (a, String.◌∷◌ c r)
unfolding number
number-append String.[] c r h k = absurd h
number-append (String.◌∷◌ d a) c r h k = ground (arith, span_digits-append (String.◌∷◌ d a) c r h k)

strip-append : (t s : String) → strip (t <> s) t ≡ some s
unfolding strip
strip-append String.[] s = rw nil-append
strip-append (String.◌∷◌ c t) s = rw (cons-append c t s) (ground (arith, strip-append t s))

tagged-append :
    (tag a : String) (c : Char) (r : String)
    → IsNumber a
    → is_digit c ≡ false
    → tagged tag (tag <> (a <> String.◌∷◌ c r)) ≡ some (tag <> a, String.◌∷◌ c r)
unfolding tagged
tagged-append tag a c r h k = rw (strip-append tag (a <> String.◌∷◌ c r), number-append a c r h k)

-- Nothing matches before an `n`.
name_at-skip : (c : Char) (s : String) → code c ≢ b'n' → name_at (String.◌∷◌ c s) ≡ none
unfolding name_at short_name long_name tagged strip
name_at-skip c s h = ground arith

find_name-skip : (t s : String) → LacksN t → find_name (t <> s) ≡ find_name s
unfolding find_name
find_name-skip String.[] s h = rw nil-append
find_name-skip (String.◌∷◌ c t) s (h, hs) =
    rw (cons-append c t s) (ground (arith, name_at-skip c (t <> s) h, find_name-skip t s hs))

find_name-hit :
    (c : Char) (s : String) {m : String}
    → name_at (String.◌∷◌ c s) ≡ some m
    → find_name (String.◌∷◌ c s) ≡ m
unfolding find_name
find_name-hit c s h = ground (arith, h)

find_name-miss :
    (c : Char) (s : String)
    → name_at (String.◌∷◌ c s) ≡ none
    → find_name (String.◌∷◌ c s) ≡ find_name s
unfolding find_name
find_name-miss c s h = ground (arith, h)

pub unit-append : (c : Char) (s : String) → String.◌∷◌ c String.[] <> s ≡ String.◌∷◌ c s
unit-append c s = rw (cons-append, nil-append)

pub nvme-append :
    (s : String) → "nvme" <> s ≡ String.◌∷◌ "n" (String.◌∷◌ "v" (String.◌∷◌ "m" (String.◌∷◌ "e" s)))
nvme-append s = rw (cons-append, cons-append, cons-append, cons-append, nil-append)

AllDigits-LacksN : (a : String) → AllDigits a → LacksN a
AllDigits-LacksN String.[] h = tt
AllDigits-LacksN (String.◌∷◌ c s) (h, hs) = (λ e. ground arith, AllDigits-LacksN s hs)

pub IsNumber-AllDigits : (a : String) → IsNumber a → AllDigits a
IsNumber-AllDigits String.[] h = absurd h
IsNumber-AllDigits (String.◌∷◌ c s) h = h

tagged_wrong :
    (s : String)
    → (tagged "n" (String.◌∷◌ "/" s) ≡ none)
      × (tagged "c" (String.◌∷◌ "/" s) ≡ none)
      × (tagged "n" (String.◌∷◌ "c" s) ≡ none)
unfolding tagged strip
tagged_wrong s = (refl, refl, refl)

-- A controller's directory, such as "nvme0/", has no device name.
name_at_controller :
    (x s : String) → IsNumber x → name_at ("nvme" <> (x <> String.◌∷◌ "/" s)) ≡ none
unfolding name_at short_name long_name
name_at_controller x s h =
    let (no_n, no_c, _) = tagged_wrong s in
    ground (arith, tagged-append "nvme" x "/" s h refl, no_n, no_c)

-- The name of a namespace's device.
name_at_namespace :
    (a b d s : String)
    → IsNumber a
    → IsNumber b
    → IsNumber d
    → name_at ("nvme" <> (a <> ("c" <> (b <> ("n" <> (d <> String.◌∷◌ "/" s))))))
      ≡ some (("nvme" <> a) <> (("c" <> b) <> ("n" <> d)))
unfolding name_at short_name long_name
name_at_namespace a b d s ha hb hd =
    let tail = "n" <> (d <> String.◌∷◌ "/" s) in
    let at_n = unit-append "n" (d <> String.◌∷◌ "/" s) in
    let at_c = unit-append "c" (b <> tail) in
    let (_, _, no_n) = tagged_wrong (b <> tail) in
    ground (
      arith,
      at_n,
      at_c,
      no_n,
      tagged-append "nvme" a "c" (b <> tail) ha refl,
      tagged-append "c" b "n" (d <> String.◌∷◌ "/" s) hb refl,
      tagged-append "n" d "/" s hd refl,
    )

-- The path of the uuid file of a namespace, under the directory of its PCI device.
abbrev pub uuid_path : (dir x a b d : String) → String
uuid_path dir x a b d =
    dir
    <> ("/nvme/"
        <> ("nvme"
            <> (x <> String.◌∷◌ "/" ("nvme" <> (a <> ("c" <> (b <> ("n" <> (d <> "/uuid")))))))))

find_name-dir : (s : String) → find_name ("/nvme/" <> s) ≡ find_name s
unfolding find_name name_at short_name long_name tagged strip number
find_name-dir s =
    rw (cons-append, cons-append, cons-append, cons-append, cons-append, cons-append, nil-append)
      refl

find_name-nvme : (s : String) → name_at ("nvme" <> s) ≡ none → find_name ("nvme" <> s) ≡ find_name s
find_name-nvme s h =
    let e : "nvme" <> s ≡ String.◌∷◌ "n" ("vme" <> s) = cons-append "n" "vme" s in
    rw e (find_name-miss "n" ("vme" <> s) (rw e at h) ∙ find_name-skip "vme" s (omega arith))

find_name-found :
    (s : String) {m : String} → name_at ("nvme" <> s) ≡ some m → find_name ("nvme" <> s) ≡ m
find_name-found s h =
    let e : "nvme" <> s ≡ String.◌∷◌ "n" ("vme" <> s) = cons-append "n" "vme" s in
    rw e (find_name-hit "n" ("vme" <> s) (rw e at h))

pub find_name-uuid_path :
    (dir x a b d : String)
    → LacksN dir
    → IsNumber x
    → IsNumber a
    → IsNumber b
    → IsNumber d
    → find_name (uuid_path dir x a b d) ≡ ("nvme" <> a) <> (("c" <> b) <> ("n" <> d))
find_name-uuid_path dir x a b d h hx ha hb hd =
    let name = "nvme" <> (a <> ("c" <> (b <> ("n" <> (d <> "/uuid"))))) in
    let below = x <> String.◌∷◌ "/" name in
    find_name-skip dir ("/nvme/" <> ("nvme" <> below)) h
    ∙ find_name-dir ("nvme" <> below)
    ∙ find_name-nvme below (name_at_controller x name hx)
    ∙ find_name-skip x (String.◌∷◌ "/" name) (AllDigits-LacksN x (IsNumber-AllDigits x hx))
    ∙ find_name-miss "/" name (name_at-skip "/" name (omega arith))
    ∙ find_name-found _ (name_at_namespace a b d "uuid" ha hb hd)
