-- ===== src/CsiCommon/Server/Life/Laws.antt =====
-- csi-common/server.go: when `Wait` returns, and when `Stop` and `ForceStop` meet a server.
use nvmeof_csi.Base.{
  ℕ, Option, none, some, ◌≡◌, ◌≢◌, ◌↔◌, refl, ◌⊎◌, inl, inr, arith, nat_eq, ◌<◌, Action, done,
  halted, panic, blocked, Option-cases,
}
use nvmeof_csi.CsiCommon.Server.{Network}
use nvmeof_csi.CsiCommon.Server.Life.{
  Grpc, Phase, unborn, serving, finished, NonBlockingGrpcServer, new_non_blocking_grpc_server,
  start, wait, on_server, stop, force_stop, Life, Moves, starts, listens, returns, stops,
  force_stops, Lives, born, moved,
}

-- A method called on a pointer to a server: on a nil pointer it panics, since it reads the fields, and
-- on a server it does not and leaves the pointer at one.
pub record IsMethod {S : Type 0} (method : Action (Option S) (Unit {0})) : Type 0 where
  pub nil_panics : method none ≡ halted panic none
  pub no_panic : (a : S) (p : Option S) → method (some a) ≢ halted panic p
  pub keeps : (a : S) (p : Option S) → method (some a) ≡ done tt p → p ≢ none

-- Whether a goroutine has come past `s.server = server`.
abbrev pub IsPast : Phase → Type 0
IsPast x = (x ≡ serving) ⊎ (x ≡ finished)

abbrev HasServer : {S : Type 0} → Option S → Type 0
HasServer p = p ≢ none

module _ {G : Grpc} where
  on_server-eq-done :
      {method : Action (Option G.Server) (Unit {0})}
      → IsMethod method
      → (s o : NonBlockingGrpcServer G) → on_server G method s ≡ done tt o
      → (o.wg ≡ s.wg) × HasServer s.server × HasServer o.server
  unfolding on_server
  on_server-eq-done {method} x s o h = elim (Option-cases s.server) [
    | inl e ↦ absurd (ground (arith, x.nil_panics))
    | inr (a, e) ↦ (ground arith, λ n. ground arith, λ n. ground (arith, x.keeps a none))
  ]

  -- What every step keeps: goroutines are counted, and those that are past the assignment are why the
  -- pointer is not nil.
  record IsSound (net : Network) (s : Life G net) : Type 0 where
    counted : (i : ℕ) → s.phase i ≢ unborn → 0 < s.object.wg
    made : (i : ℕ) → IsPast (s.phase i) → HasServer s.object.server
    maker : HasServer s.object.server → (i : ℕ) × IsPast (s.phase i)

  -- A method panics exactly as long as no goroutine has made the server.
  on_server-panic_iff :
      {net : Network} {method : Action (Option G.Server) (Unit {0})}
      → IsMethod method
      → {s : Life G net} → IsSound net s
      → (on_server G method s.object ≡ halted panic s.object) ↔ ((i : ℕ) → ¬ IsPast (s.phase i))
  unfolding on_server
  on_server-panic_iff {net} {method} x {s} sound = elim (Option-cases s.object.server) [
    | inl e ↦ (λ h i past. sound.made i past e, λ early. ground (arith, x.nil_panics))
    | inr (a, e) ↦ (
      λ h. absurd (ground (arith, x.no_panic a s.object.server)),
      λ early. let (i, past) = sound.maker (λ n. ground arith) in absurd (early i past),
    )
  ]

  module _ {net : Network} (graceful : IsMethod G.graceful_stop) (forced : IsMethod G.stop) where
    Moves-IsSound : {s t : Life G net} → Moves G net s t → IsSound net s → IsSound net t
    unfolding start stop force_stop
    Moves-IsSound {s} (starts i e) x = record {
      counted = λ j h. omega arith;
      made = λ j h. ground (arith, x.made j);
      maker = λ h. let (j, past) = x.maker h in (j, ground (arith, e));
    }
    Moves-IsSound {s} (listens i endpoint ids cs ns services w e h) x = record {
      counted = λ j k. x.counted i (ground (arith, e));
      made = λ j k n. cc;
      maker = λ k. (i, ground arith);
    }
    Moves-IsSound {s} (returns i w e h) x = record {
      counted = λ j k. x.counted i (ground (arith, e));
      made = λ j k. ground (arith, x.made i, e);
      maker = λ k. (i, ground arith);
    }
    Moves-IsSound {s} (stops o h) x =
        let (same, before, after) = on_server-eq-done graceful s.object o h in
        record {
          counted = λ j k. ground (arith, x.counted j k);
          made = λ j k. after;
          maker = λ k. x.maker before;
        }
    Moves-IsSound {s} (force_stops o h) x =
        let (same, before, after) = on_server-eq-done forced s.object o h in
        record {
          counted = λ j k. ground (arith, x.counted j k);
          made = λ j k. after;
          maker = λ k. x.maker before;
        }

    Lives-IsSound : {s : Life G net} → Lives G net s → IsSound net s
    unfolding new_non_blocking_grpc_server
    Lives-IsSound (born w) = record {
      counted = λ j k. absurd (k refl);
      made = λ j k. ground arith;
      maker = λ k. absurd (k refl);
    }
    Lives-IsSound (moved r m) = Moves-IsSound m (Lives-IsSound r)

    -- Where the library's two methods panic on a nil pointer and on no other, and leave a server's
    -- pointer at one: in every state that the process reaches, once `Start` has been called,
    -- `Wait` blocks, also when the server was stopped and every goroutine of `Start` is at its
    -- end.
    pub wait_never_returns :
        {s : Life G net}
        → Lives G net s
        → (i : ℕ) → s.phase i ≢ unborn
        → wait G s.object ≡ halted blocked s.object
    unfolding wait
    wait_never_returns r i h = ground (arith, (Lives-IsSound r).counted i h)

    -- Where the library's two methods panic on a nil pointer and on no other, and leave a server's
    -- pointer at one: in every state that the process reaches, `Stop` panics exactly if no
    -- goroutine of `Start` has come past `s.server = server`, however often `Start` has returned,
    -- and so does `ForceStop`.
    pub stop_panics_iff :
        {s : Life G net}
        → Lives G net s
        → ((stop G s.object ≡ halted panic s.object) ↔ ((i : ℕ) → ¬ IsPast (s.phase i)))
          × ((force_stop G s.object ≡ halted panic s.object) ↔ ((i : ℕ) → ¬ IsPast (s.phase i)))
    unfolding stop force_stop
    stop_panics_iff r =
        let sound = Lives-IsSound r in
        (on_server-panic_iff graceful sound, on_server-panic_iff forced sound)
