-- ===== src/Base/Calls.antt =====
-- A call of Go code over a state: it returns a value, returns an error, panics, or blocks.
use nvmeof_csi.Base.Errors.{Error, Result, ok, err}

-- Why a call does not return: a run-time panic, or a mutex that somebody holds.
pub data Halt : Type 0 where
  panic blocked : Halt

pub data Run (S A : Type 0) : Type 0 where
  done : A → S → Run S A
  failed : Error → S → Run S A
  halted : Halt → S → Run S A

abbrev pub Action : Type 0 → Type 0 → Type 0
Action S A = S → Run S A

abbrev pub pure : {S A : Type 0} → A → Action S A
pure a s = done a s

abbrev pub fail : {S A : Type 0} → Error → Action S A
fail e s = failed e s

-- `v, err := m(); if err != nil { return err }` and the rest.
infixl 5 ◌>>=◌ ◌>>◌
abbrev pub ◌>>=◌ : {S A B : Type 0} → Action S A → (A → Action S B) → Action S B
◌>>=◌ m f s = elim (m s) [ done a t ↦ f a t | failed e t ↦ failed e t | halted h t ↦ halted h t ]

abbrev pub ◌>>◌ : {S B : Type 0} → Action S (Unit {0}) → Action S B → Action S B
◌>>◌ m k = m >>= λ _. k

-- `v, err := m()` where the code goes on with the error.
abbrev pub attempt : {S A : Type 0} → Action S A → Action S (Result A)
attempt m s = elim (m s) [
  | done a t ↦ done (ok a) t
  | failed e t ↦ done (err e) t
  | halted h t ↦ halted h t
]

-- `return nil, wrap(err)`: the same call with its error replaced.
abbrev pub on_error : {S A : Type 0} → (Error → Error) → Action S A → Action S A
on_error wrap m s = elim (m s) [
  | done a t ↦ done a t
  | failed e t ↦ failed (wrap e) t
  | halted h t ↦ halted h t
]

-- A call of an external interface, which returns a value or an error with its new state.
abbrev pub returned : {S A : Type 0} → Result A → S → Run S A
returned (ok a) t = done a t
returned (err e) t = failed e t

abbrev pub lift : {S A : Type 0} → (S → Result A × S) → Action S A
lift m s = let (r, t) = m s in returned r t

-- The state that a call leaves.
abbrev pub final : {S A : Type 0} → Run S A → S
final (done a t) = t
final (failed e t) = t
final (halted h t) = t
