-- ===== src/Rpc/Flights.antt =====
-- util/jsonrpc.go: goroutines that call one storage node at the same time, interleaved at
-- `atomic.AddInt32` and at the return of `call`.
pub mod Safety
use nvmeof_csi.Base.{ℕ, ◌+◌, Option, none, some, ◌==◌, nat_eq, ◌≡◌, if◌then◌else◌}
use nvmeof_csi.Rpc.Call.{Client, Transport, next_id}

-- A call that has its ID and has not returned: the ID, and how many calls there were up to it.
pub record Flight : Type 0 where
  pub id : ℕ
  pub ticket : ℕ

abbrev pub set_flight : (ℕ → Option Flight) → ℕ → Option Flight → ℕ → Option Flight
set_flight f i x j = if i == j then x else f j

module _ (T : Transport) where
  -- `issued` counts the calls.
  pub record Sky : Type 0 where
    pub client : Client T.State
    pub issued : ℕ
    pub flight : ℕ → Option Flight

  -- The client with the counter that `AddInt32` leaves.
  abbrev pub counted : Client T.State → Client T.State
  counted c = record c { rpc_id = next_id T c }

  -- A goroutine takes the next ID, a target answers and changes, or a goroutine's call returns.
  pub data Flies (s : Sky) : Sky → Type 0 where
    departs :
        (i : ℕ)
        → s.flight i ≡ none
        → Flies s (record {
          client = counted s.client;
          issued = s.issued + 1;
          flight =
              set_flight s.flight i
                (some (record { id = next_id T s.client; ticket = s.issued + 1 }));
        })
    answers : (w : T.State) → Flies s (record s { client = record s.client { world = w } })
    arrives :
        (i : ℕ) (f : Flight)
        → s.flight i ≡ some f
        → Flies s (record s { flight = set_flight s.flight i none })

  -- The states that are reached from a new client.
  pub data Skies : Sky → Type 0 where
    clear :
        (c : Client T.State)
        → c.rpc_id ≡ 0
        → Skies (record { client = c; issued = 0; flight = λ _. none })
    onward : {s t : Sky} → Skies s → Flies s t → Skies t
