-- ===== src/Rpc/Flights/Safety.antt =====
-- util/jsonrpc.go: whose response a response is.
use nvmeof_csi.Base.{String, ℕ, ◌+◌, ◌%◌, ◌^◌, ◌<◌, ◌≤◌, none, some, ◌≡◌, arith, nat_eq}
use nvmeof_csi.Rpc.Call.{Transport, next_id, Response, read_response}
use nvmeof_csi.Rpc.Laws.{read_response_iff}
use nvmeof_csi.Rpc.Flights.{Flight, Sky, Flies, departs, answers, arrives, Skies, clear, onward}

-- Numbers that differ by less than the width have different remainders.
distinct-mod :
    (a b n : ℕ) → a ≤ n → b ≤ n → n < a + 2 ^ 32 → n < b + 2 ^ 32 → a % 2 ^ 32 ≡ b % 2 ^ 32 → a ≡ b
distinct-mod a b n = omega arith

module _ {T : Transport} where
  record IsNumbered (s : Sky T) : Type 0 where
    counter : s.client.rpc_id ≡ s.issued % 2 ^ 32
    numbered :
        (i : ℕ) (f : Flight)
        → s.flight i ≡ some f
        → (f.id ≡ f.ticket % 2 ^ 32) × (f.ticket ≤ s.issued)
    apart :
        (i j : ℕ) (f g : Flight)
        → s.flight i ≡ some f
        → s.flight j ≡ some g
        → f.ticket ≡ g.ticket
        → i ≡ j

  Flies-IsNumbered : {s t : Sky T} → Flies T s t → IsNumbered s → IsNumbered t
  unfolding next_id
  Flies-IsNumbered {s} (departs i e) x = record {
    counter = ground (arith, x.counter);
    numbered = λ j f h. ground (arith, x.counter, x.numbered j f);
    apart = λ j k f g h l same. ground (arith, x.apart j k f g, x.numbered j f, x.numbered k g);
  }
  Flies-IsNumbered {s} (answers w) x = record {
    counter = x.counter;
    numbered = x.numbered;
    apart = x.apart;
  }
  Flies-IsNumbered {s} (arrives i f e) x = record {
    counter = x.counter;
    numbered = λ j g h. ground (arith, x.numbered j g);
    apart = λ j k g h l m same. ground (arith, x.apart j k g h);
  }

  Skies-IsNumbered : {s : Sky T} → Skies T s → IsNumbered s
  Skies-IsNumbered (clear c e) = record {
    counter = ground (arith, e);
    numbered = λ i f h. cc;
    apart = λ i j f g h k same. cc;
  }
  Skies-IsNumbered (onward r m) = Flies-IsNumbered m (Skies-IsNumbered r)

  -- However goroutines share a client, a response that two calls in flight both accept is of one call,
  -- provided that since each of them started there were fewer than 2^32 calls.
  pub accepted_by_one :
      {s : Sky T}
      → Skies T s
      → (i j : ℕ) (f g : Flight) → s.flight i ≡ some f
      → s.flight j ≡ some g
      → s.issued < f.ticket + 2 ^ 32
      → s.issued < g.ticket + 2 ^ 32
      → {A : Type 0} (method other : String) (resp : Response A) (a b : A)
      → read_response method f.id resp ≡ record { result = a; error = none }
      → read_response other g.id resp ≡ record { result = b; error = none }
      → i ≡ j
  accepted_by_one {s} r i j f g hi hj young_f young_g m n resp a b ha hb =
      let x = Skies-IsNumbered r in
      let (id_f, le_f) = x.numbered i f hi in
      let (id_g, le_g) = x.numbered j g hj in
      x.apart i j f g hi hj (
        distinct-mod f.ticket g.ticket s.issued le_f le_g young_f young_g (
          ground (
            arith,
            (read_response_iff m f.id resp a).0 ha,
            (read_response_iff n g.id resp b).0 hb,
          )))
