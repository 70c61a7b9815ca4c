-- ===== src/Locks/Threads/History/Serial.antt =====
-- util/idlocker.go: the handlers of one volume run one after the other.
use nvmeof_csi.Base.{
  ℕ, String, Option, none, some, List, ◌∷◌, ◌≡◌, ◌↔◌, refl, inl, inr, arith, nat_eq, string_eq,
  eq_iff, ◌==◌, Bool-cases, Option-cases,
}
use nvmeof_csi.Locks.{VolumeLocks, acquire, release, load_or_store}
use nvmeof_csi.Locks.Threads.{
  update, System, idle, waiting, critical, Step, load, enter, leave, Reach, start, later,
}
use nvmeof_csi.Locks.Threads.Invariant.{IsConsistent, Reach-IsConsistent, acquire-eq-some}
use nvmeof_csi.Locks.Threads.History.{Event, locks, unlocks, history, turn, holder}

abbrev pub Holds : System → ℕ → String → Type 0
Holds s i k = (p : ℕ) × (s.pc i ≡ critical k p)

-- The holder that the events leave is the goroutine that holds the volume.
abbrev pub Agrees : System → List Event → String → Type 0
Agrees s es k = (o : Option ℕ) × (holder k es ≡ some o) × ((j : ℕ) → (o ≡ some j) ↔ Holds s j k)

module _ {s : System} (c : IsConsistent s) (es : List Event) (k : String) (a : Agrees s es k)
    (i : ℕ) (l : String) where
  -- A free mutex is that of a volume that nobody holds.
  unheld :
      (p : ℕ) (vl : VolumeLocks)
      → s.pc i ≡ waiting l p
      → acquire p s.locks ≡ some vl
      → (j : ℕ) → ¬ Holds s j l
  unheld p vl e h j (q, at) =
      let (free, _) = acquire-eq-some p s.locks h in
      ground (arith, c.known i l p, c.known j l q, c.locked j l q)

  -- Who holds a volume that a goroutine holds is that goroutine.
  sole : (p : ℕ) → s.pc i ≡ critical l p → (j : ℕ) → Holds s j l → i ≡ j
  sole p e j (q, at) = ground (arith, c.known i l p, c.known j l q, c.alone i j l l p)

  load-Agrees :
      (p : ℕ) (vl : VolumeLocks)
      → s.pc i ≡ idle
      → Agrees (record { locks = vl; pc = update s.pc i (waiting l p) }) es k
  load-Agrees p vl e =
      let (o, e', f) = a in
      (
        o,
        e',
        λ j. (
          λ h. let (q, at) = (f j).0 h in (q, ground (arith, e)),
          λ (q, at). (f j).1 (q, ground (arith, e)),
        ),
      )

  enter-Agrees :
      (p : ℕ) (vl : VolumeLocks)
      → s.pc i ≡ waiting l p
      → acquire p s.locks ≡ some vl
      → Agrees (record { locks = vl; pc = update s.pc i (critical l p) }) (locks i l ∷ es) k
  unfolding holder turn
  enter-Agrees p vl e h =
      let (o, e', f) = a in
      elim (Bool-cases (l == k)) [
        | inl same ↦ elim (Option-cases o) [
          | inl free ↦ (
            some i,
            ground arith,
            λ j. (
              λ h'. (p, ground (arith, eq_iff l k)),
              λ (q, at). elim (Bool-cases (i == j)) [
                | inl this ↦ ground arith
                | inr that ↦ absurd (ground (arith, (f j).1 (q, ground arith)))
              ],
            ),
          )
          | inr (j, held) ↦
              let (q, at) = (f j).0 held in
              absurd (unheld p vl e h j (q, ground (arith, eq_iff l k)))
        ]
        | inr other ↦ (
          o,
          ground arith,
          λ j. (
            λ h'. let (q, at) = (f j).0 h' in (q, ground (arith, e)),
            λ (q, at). (f j).1 (q, ground (arith, e, eq_iff l k)),
          ),
        )
      ]

  leave-Agrees :
      (p : ℕ)
      → s.pc i ≡ critical l p
      → Agrees (record { locks = release p s.locks; pc = update s.pc i idle }) (unlocks i l ∷ es) k
  unfolding holder turn
  leave-Agrees p e =
      let (o, e', f) = a in
      elim (Bool-cases (l == k)) [
        | inl same ↦ (
          none,
          ground (arith, (f i).1 (p, ground (arith, eq_iff l k))),
          λ j. (
            λ h. cc,
            λ (q, at).
                absurd (ground (arith, sole p e j (q, ground (arith, eq_iff l k)), eq_iff l k)),
          ),
        )
        | inr other ↦ (
          o,
          ground arith,
          λ j. (
            λ h'. let (q, at) = (f j).0 h' in (q, ground (arith, e, eq_iff l k)),
            λ (q, at). (f j).1 (q, ground (arith, e, eq_iff l k)),
          ),
        )
      ]

Step-Agrees :
    {s t : System} (r : Reach s) (m : Step s t) (k : String)
    → Agrees s (history r) k
    → Agrees t (history (later r m)) k
unfolding history
Step-Agrees {s} r (load i l e) k a =
    load-Agrees (Reach-IsConsistent r) (history r) k a i l (load_or_store l s.locks).0
      (load_or_store l s.locks).1 e
Step-Agrees r (enter i l p vl e h) k a =
    enter-Agrees (Reach-IsConsistent r) (history r) k a i l p vl e h
Step-Agrees r (leave i l p e) k a = leave-Agrees (Reach-IsConsistent r) (history r) k a i l p e

-- In every reachable state, what has happened on a volume is what happens on a lock: a goroutine locks
-- it when nobody holds it, and only its holder unlocks it. The holder that these events leave is the
-- goroutine that holds the volume in that state, if one does.
pub holder-history :
    {s : System} (r : Reach s) (k : String)
    → (o : Option ℕ) × (holder k (history r) ≡ some o) × ((i : ℕ) → (o ≡ some i) ↔ Holds s i k)
unfolding holder history
holder-history start k = (none, refl, λ i. (λ h. cc, λ (p, h). cc))
holder-history (later r m) k = Step-Agrees r m k (holder-history r k)
