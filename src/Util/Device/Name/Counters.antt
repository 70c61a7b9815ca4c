-- ===== src/Util/Device/Name/Counters.antt =====
-- util/util.go: what the second expression leaves of a device name.
use text.Mathlib.TextLemmas.{cons-append, nil-append, append_assoc}
use nvmeof_csi.Base.{String, ◌<>◌, ◌≡◌, refl, sym, ◌∙◌, ap, true, false, arith, nat_eq}
use nvmeof_csi.Util.Device.Name.{starts_digit, drop_counters}
use nvmeof_csi.Util.Device.Name.Matching.{
  AllDigits, IsNumber, IsNumber-AllDigits, unit-append, nvme-append,
}

drop_counters-digits :
    (a s : String) → AllDigits a → drop_counters false (a <> s) ≡ a <> drop_counters false s
unfolding drop_counters
drop_counters-digits String.[] s h =
    ap (drop_counters false) (nil-append s) ∙ sym (nil-append (drop_counters false s))
drop_counters-digits (String.◌∷◌ c a) s (h, hs) =
    rw (cons-append c a s, cons-append c a (drop_counters false s))
      (ground (arith, drop_counters-digits a s hs))

drop_counters_passing :
    (b s : String) → AllDigits b → drop_counters true (b <> s) ≡ drop_counters true s
unfolding drop_counters
drop_counters_passing String.[] s h = rw nil-append
drop_counters_passing (String.◌∷◌ c b) s (h, hs) =
    rw (cons-append c b s) (ground (arith, drop_counters_passing b s hs))

starts_digit-append : (b s : String) → IsNumber b → starts_digit (b <> s) ≡ true
starts_digit-append String.[] s h = absurd h
starts_digit-append (String.◌∷◌ c b) s (h, hs) = rw (cons-append c b s) h

drop_counters_number : (d : String) → AllDigits d → drop_counters false d ≡ d
unfolding drop_counters
drop_counters_number String.[] h = refl
drop_counters_number (String.◌∷◌ c d) (h, hs) = ground (arith, drop_counters_number d hs)

drop_counters_last : (d : String) → AllDigits d → drop_counters true ("n" <> d) ≡ "n" <> d
unfolding drop_counters
drop_counters_last d h = rw (unit-append "n" d) (ap (String.◌∷◌ "n") (drop_counters_number d h))

drop_counters_counter :
    (b s : String) → IsNumber b → drop_counters false ("c" <> (b <> s)) ≡ drop_counters true s
unfolding drop_counters
drop_counters_counter b s h =
    rw (unit-append "c" (b <> s)) (
      ground (arith, starts_digit-append b s h, drop_counters_passing b s (IsNumber-AllDigits b h)))

drop_counters_nvme :
    (s : String) → drop_counters false ("nvme" <> s) ≡ "nvme" <> drop_counters false s
unfolding drop_counters
drop_counters_nvme s = rw (nvme-append s, nvme-append (drop_counters false s)) refl

pub drop_counters_name :
    (a b d : String)
    → IsNumber a
    → IsNumber b
    → IsNumber d
    → drop_counters false (("nvme" <> a) <> (("c" <> b) <> ("n" <> d)))
      ≡ "nvme" <> (a <> ("n" <> d))
drop_counters_name a b d ha hb hd =
    rw (append_assoc "nvme" a (("c" <> b) <> ("n" <> d)), append_assoc "c" b ("n" <> d))
      (drop_counters_nvme (a <> ("c" <> (b <> ("n" <> d))))
        ∙ ap (λ t. "nvme" <> t)
            (drop_counters-digits a ("c" <> (b <> ("n" <> d))) (IsNumber-AllDigits a ha)
              ∙ ap (λ t. a <> t)
                  (drop_counters_counter b ("n" <> d) hb
                    ∙ drop_counters_last d (IsNumber-AllDigits d hd))))
