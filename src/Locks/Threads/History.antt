-- ===== src/Locks/Threads/History.antt =====
-- util/idlocker.go: the order in which goroutines lock and unlock volumes, and a lock that has one
-- holder at a time, as a specification.
pub mod Serial
use nvmeof_csi.Base.{
  ℕ, String, Option, none, some, List, [], ◌∷◌, ◌==◌, nat_eq, string_eq, if◌then◌else◌,
}
use nvmeof_csi.Locks.Threads.{System, Step, load, enter, leave, Reach, start, later}

pub data Event : Type 0 where
  locks : ℕ → String → Event
  unlocks : ℕ → String → Event

-- What has happened up to a state, the last event first. `LoadOrStore` is no event.
unfoldable pub history : {s : System} → Reach s → List Event
history start = []
history (later r (load i k e)) = history r
history (later r (enter i k p vl e h)) = locks i k ∷ history r
history (later r (leave i k p e)) = unlocks i k ∷ history r

-- One event of a lock: a free lock is taken, a taken one is given back by its holder.
unfoldable pub turn : Event → Option ℕ → Option (Option ℕ)
turn (locks i k) none = some (some i)
turn (locks i k) (some j) = none
turn (unlocks i k) none = none
turn (unlocks i k) (some j) = if i == j then some none else none

abbrev pub volume : Event → String
volume (locks i k) = k
volume (unlocks i k) = k

-- The holder of a volume after its events, or none if they are not those of a lock.
unfoldable pub holder : String → List Event → Option (Option ℕ)
unfolding turn
holder k [] = some none
holder k (e ∷ es) =
    let before = holder k es in
    if volume e == k then elim before [ none ↦ none | some o ↦ turn e o ] else before
