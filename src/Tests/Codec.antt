-- ===== src/Tests/Codec.antt =====
-- A codec of `VolumeIdentifier` that keeps the rules of encoding/json, for examples: a brace, then
-- the numbers of the struct in unary.
use Prim.Native.Char.{Char, char, code, nul}
use Prim.Native.Nat.{Ordering, compare}
use nvmeof_csi.Base.{
  ℕ, zero, suc, String, ◌≡◌, refl, ◌∙◌, List, [], ◌∷◌, Result, ok, err, plain, arith,
}
use nvmeof_csi.Base.Base64.Laws.{AreBytes}
use nvmeof_csi.Driver.Controller.VolumeId.{VolumeIdentifier, Json, IsLawful}

-- The clauses of `IsScalar`.
abbrev BothLt : Ordering → Ordering → Type 0
BothLt Ordering.lt Ordering.lt = Unit
BothLt Ordering.lt Ordering.eq = ⊥
BothLt Ordering.lt Ordering.gt = ⊥
BothLt Ordering.eq _ = ⊥
BothLt Ordering.gt _ = ⊥

abbrev Scalar : Ordering → Ordering → Ordering → Type 0
Scalar Ordering.lt _ _ = Unit
Scalar Ordering.eq o p = BothLt o p
Scalar Ordering.gt o p = BothLt o p

abbrev when_both : (o p : Ordering) → (BothLt o p → Char) → Char
when_both Ordering.lt Ordering.lt f = f tt
when_both Ordering.lt Ordering.eq f = nul
when_both Ordering.lt Ordering.gt f = nul
when_both Ordering.eq _ f = nul
when_both Ordering.gt _ f = nul

abbrev when_scalar : (o p q : Ordering) → (Scalar o p q → Char) → Char
when_scalar Ordering.lt p q f = f tt
when_scalar Ordering.eq p q f = when_both p q f
when_scalar Ordering.gt p q f = when_both p q f

when_both_holds : (o p : Ordering) (f : BothLt o p → Char) (h : BothLt o p) → when_both o p f ≡ f h
when_both_holds Ordering.lt Ordering.lt f h = refl
when_both_holds Ordering.lt Ordering.eq f h = absurd h
when_both_holds Ordering.lt Ordering.gt f h = absurd h
when_both_holds Ordering.eq p f h = absurd h
when_both_holds Ordering.gt p f h = absurd h

when_scalar_holds :
    (o p q : Ordering) (f : Scalar o p q → Char) (h : Scalar o p q) → when_scalar o p q f ≡ f h
when_scalar_holds Ordering.lt p q f h = refl
when_scalar_holds Ordering.eq p q f h = when_both_holds p q f h
when_scalar_holds Ordering.gt p q f h = when_both_holds p q f h

-- The character of a number, and NUL for a number that has none.
abbrev to_char : ℕ → Char
to_char n = when_scalar (compare n 55296) (compare 57343 n) (compare n 1114112) (char n)

to_char-code : (c : Char) → to_char (code c) ≡ c
to_char-code (char n h) =
    when_scalar_holds (compare n 55296) (compare 57343 n) (compare n 1114112) (char n) h

abbrev put : ℕ → List ℕ → List ℕ
put zero rest = 0 ∷ rest
put (suc n) rest = 1 ∷ put n rest

abbrev flat : List ℕ → List ℕ
flat [] = []
flat (n ∷ ns) = put n (flat ns)

abbrev bump : List ℕ → List ℕ
bump [] = []
bump (n ∷ ns) = suc n ∷ ns

abbrev numbers : List ℕ → List ℕ
numbers [] = []
numbers (zero ∷ rest) = 0 ∷ numbers rest
numbers (suc _ ∷ rest) = bump (numbers rest)

abbrev put_text : String → List ℕ → List ℕ
put_text String.[] rest = 0 ∷ rest
put_text (String.◌∷◌ c s) rest = suc (code c) ∷ put_text s rest

abbrev text_of : List ℕ → String × List ℕ
text_of [] = (String.[], [])
text_of (zero ∷ rest) = (String.[], rest)
text_of (suc n ∷ rest) = let (s, left) = text_of rest in (String.◌∷◌ (to_char n) s, left)

abbrev read : List ℕ → Result VolumeIdentifier
read [] = err (plain "unexpected end of JSON input")
read (n ∷ rest) =
    let (nqn, left) = text_of rest in
    ok (record { nsid = n; nqn = nqn; volume_name = (text_of left).0 })

abbrev unmarshal : List ℕ → Result VolumeIdentifier
unmarshal [] = err (plain "unexpected end of JSON input")
unmarshal (_ ∷ bytes) = read (numbers bytes)

abbrev fields : VolumeIdentifier → List ℕ
fields v = v.nsid ∷ put_text v.nqn (put_text v.volume_name [])

abbrev pub codec : Json
codec = record { marshal = λ v. b'{' ∷ flat (fields v); unmarshal = unmarshal }

put-AreBytes : (n : ℕ) (rest : List ℕ) → AreBytes rest → AreBytes (put n rest)
put-AreBytes zero rest h = ground arith
put-AreBytes (suc n) rest h = ground (arith, put-AreBytes n rest h)

flat-AreBytes : (ns : List ℕ) → AreBytes (flat ns)
flat-AreBytes [] = tt
flat-AreBytes (n ∷ ns) = put-AreBytes n (flat ns) (flat-AreBytes ns)

numbers-put : (n : ℕ) (rest : List ℕ) → numbers (put n rest) ≡ n ∷ numbers rest
numbers-put zero rest = refl
numbers-put (suc n) rest = rw (numbers-put n rest) refl

numbers-flat : (ns : List ℕ) → numbers (flat ns) ≡ ns
numbers-flat [] = refl
numbers-flat (n ∷ ns) = numbers-put n (flat ns) ∙ rw (numbers-flat ns) refl

text_of-put_text : (s : String) (rest : List ℕ) → text_of (put_text s rest) ≡ (s, rest)
text_of-put_text String.[] rest = refl
text_of-put_text (String.◌∷◌ c s) rest = rw (text_of-put_text s rest, to_char-code c) refl

read-fields : (v : VolumeIdentifier) → read (fields v) ≡ ok v
read-fields v =
    rw (text_of-put_text v.nqn (put_text v.volume_name []), text_of-put_text v.volume_name []) refl

pub codec-IsLawful : IsLawful codec
codec-IsLawful = record {
  marshal-AreBytes = λ v. (omega arith, flat-AreBytes (fields v));
  marshal_object = λ v. (flat (fields v), refl);
  unmarshal-marshal = λ v h. rw (numbers-flat (fields v)) (read-fields v);
}
