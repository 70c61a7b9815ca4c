-- ===== src/Base/Inversion.antt =====
-- Taking a call apart whose outcome is known.
use mathlib.Core.Path.{◌≡◌, refl, sym, subst}
use native.Mathlib.Omega.{arith}
use nvmeof_csi.Base.Errors.{Error, Result, ok}
use nvmeof_csi.Base.Calls.{
  Run, returned, done, failed, halted, Action, ◌>>=◌, on_error, lift, final,
}

abbrev bound : {S A B : Type 0} → Run S A → (A → Action S B) → Run S B
bound (done a t) f = f a t
bound (failed e t) f = failed e t
bound (halted h t) f = halted h t

bound-eq-done :
    {S A B : Type 0} (r : Run S A) (f : A → Action S B) {b : B} {t : S}
    → bound r f ≡ done b t
    → (a : A) × (u : S) × (r ≡ done a u) × (f a u ≡ done b t)
bound-eq-done (done a u) f h = (a, u, refl, h)
bound-eq-done (failed e u) f h = cc
bound-eq-done (halted k u) f h = cc

>>=-eq-bound :
    {S A B : Type 0} (m : Action S A) (f : A → Action S B) (s : S) → (m >>= f) s ≡ bound (m s) f
>>=-eq-bound m f s = ground arith

-- A chain that succeeds has a first step that succeeds.
pub >>=-eq-done :
    {S A B : Type 0} (m : Action S A) (f : A → Action S B) (s : S) {b : B} {t : S}
    → (m >>= f) s ≡ done b t
    → (a : A) × (u : S) × (m s ≡ done a u) × (f a u ≡ done b t)
>>=-eq-done m f s h = bound-eq-done (m s) f (rw >>=-eq-bound at h)

-- A call whose errors are replaced succeeds as the call does.
pub on_error-eq-done :
    {S A : Type 0} (w : Error → Error) (m : Action S A) (s : S) {a : A} {t : S}
    → on_error w m s ≡ done a t
    → m s ≡ done a t
on_error-eq-done w m s h = ground arith

-- A call of an interface that succeeds.
pub lift-eq-done :
    {S A : Type 0} (m : S → Result A × S) (s : S) {a : A} {t : S}
    → lift m s ≡ done a t
    → m s ≡ (ok a, t)
lift-eq-done m s h = ground arith

-- The result of a call of an interface that succeeds.
pub returned-eq-done :
    {S A : Type 0} (r : Result A) (s : S) {a : A} {t : S} → returned r s ≡ done a t → r ≡ ok a
returned-eq-done r s h = ground arith

final-bound {ℓ} :
    {S A B : Type 0} (P : S → Type ℓ) (r : Run S A) (f : A → Action S B)
    → P (final r)
    → ((a : A) (t : S) → r ≡ done a t → P (final (f a t)))
    → P (final (bound r f))
final-bound P (done a t) f first second = second a t refl
final-bound P (failed e t) f first second = first
final-bound P (halted h t) f first second = first

-- What holds after the first step of a chain, where the chain ends there, and after the second step
-- else, holds after the chain.
pub final->>= {ℓ} :
    {S A B : Type 0} (P : S → Type ℓ) (m : Action S A) (f : A → Action S B) (s : S)
    → P (final (m s))
    → ((a : A) (t : S) → m s ≡ done a t → P (final (f a t)))
    → P (final ((m >>= f) s))
final->>= P m f s first second =
    subst (λ r. P (final r)) (sym (>>=-eq-bound m f s)) (final-bound P (m s) f first second)

pub final-on_error :
    {S A : Type 0} (w : Error → Error) (m : Action S A) (s : S)
    → final (on_error w m s) ≡ final (m s)
final-on_error w m s = ground arith

pub final-lift : {S A : Type 0} (m : S → Result A × S) (s : S) → final (lift m s) ≡ (m s).1
final-lift m s = ground arith
