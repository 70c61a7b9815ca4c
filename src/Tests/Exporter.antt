-- ===== src/Tests/Exporter.antt =====
-- A small target that exports subsystems.
use nvmeof_csi.Base.{
  ◌==◌, ℕ, String, ◌≡◌, refl, ap, sym, ◌∙◌, Option-cases, inl, inr, Result, Bool, true, false, none,
  some, List, [], ◌∷◌, ok, arith, string_eq, nat_eq, if◌then◌else◌,
}
use nvmeof_csi.Base.Int.{pos}
use nvmeof_csi.Rpc.Call.{HttpResponse, Listener, Response, BDev, Transport, Params, RpcRequest}
use nvmeof_csi.Spdk.Target.{
  Exports, put, add_bdev, add_listening, IsAnswered, leaves_subsystems, names_subsystem, TargetView,
}

-- An answer of the target: is it refused, and the listeners that it lists.
abbrev Reply : Type 0
Reply = Bool × List Listener

abbrev accepted : Reply
accepted = (false, [])

abbrev refused : Reply
refused = (true, [])

-- The methods that change no subsystem.
abbrev query : Params → Exports → Reply
query (Params.nqn q) x = elim (x q) [ none ↦ refused | some e ↦ (false, e.listeners) ]
query _ x = accepted

-- The methods that change one.
abbrev change : Params → Exports → Reply × Exports
change (Params.subsystem q any serial model) x = elim (x q) [
  | none ↦ (accepted, put q (some (record { bdevs = []; listeners = [] })) x)
  | some e ↦ (refused, x)
]
change (Params.add_ns q bdev) x = elim (x q) [
  | none ↦ (refused, x)
  | some e ↦ (accepted, put q (add_bdev bdev (some e)) x)
]
change (Params.add_listener q trtype adrfam traddr trsvcid) x = elim (x q) [
  | none ↦ (refused, x)
  | some e ↦ (
    accepted,
    put q
        (add_listening
          (record { trtype = trtype; adrfam = adrfam; traddr = traddr; trsvcid = trsvcid })
          (some e))
        x,
  )
]
change (Params.remove_ns q n) x = elim (x q) [
  | none ↦ (refused, x)
  | some e ↦ (accepted, put q (some (record e { bdevs = [] })) x)
]
change (Params.nqn q) x = elim (x q) [ none ↦ (refused, x) | some e ↦ (accepted, put q none x) ]
change _ x = (refused, x)

abbrev respond : RpcRequest → Exports → Reply × Exports
respond req x =
    if leaves_subsystems req.method then (query req.params x, x) else change req.params x

abbrev read : {A : Type 0} → (List Listener → A) → ℕ × Reply → Response A
read f (n, (bad, ls)) = record {
  id = n;
  error_code_zero = if bad then false else true;
  error_message = "Invalid parameters";
  result = f ls;
  decode_error = none;
}

abbrev bdev : BDev
bdev = record {
  name = "lvol-1";
  uuid = "4c1d";
  block_size = pos 4096;
  num_blocks = pos 256;
  driver_specific = some "lvs";
}

abbrev pub target : Transport
target = record {
  State = Exports;
  Body = ℕ × Reply;
  post = λ req x.
      let (r, y) = respond req x in (ok (record { status_code = 200; body = (req.id, r) }), y);
  decode_nothing = read (λ ls. tt);
  decode_text = read (λ ls. "4c1d");
  decode_number = read (λ ls. 1);
  decode_bdevs = read (λ ls. bdev ∷ []);
  decode_lvstores = read (λ ls. []);
  decode_listeners = read (λ ls. ls);
  decode_subsystems = read (λ ls. []);
}

posted_body :
    {x y : Exports} (n : ℕ) (r : Reply) {resp : HttpResponse (ℕ × Reply)}
    → ◌≡◌ {A = Result (HttpResponse (ℕ × Reply)) × Exports}
        (ok (record { status_code = 200; body = (n, r) }), x)
        (ok resp, y)
    → (resp.body ≡ (n, r)) × (x ≡ y)
posted_body n r h = (ground arith, ap (λ z. z.1) h)

read_accepted :
    {A : Type 0} (f : List Listener → A) (n : ℕ) (r : Reply)
    → (read f (n, r)).error_code_zero ≡ true
    → r.0 ≡ false
read_accepted f n (bad, ls) h = ground arith

read_result :
    {A : Type 0} (f : List Listener → A) (n : ℕ) (r : Reply) → (read f (n, r)).result ≡ f r.1
read_result f n (bad, ls) = refl

-- What an answer without an error says.
answered :
    {A : Type 0} (f : List Listener → A) (req : RpcRequest) (x : Exports) {a : A} {y : Exports}
    → IsAnswered target (read f) req x a y
    → ((respond req x).0.0 ≡ false) × (f (respond req x).0.1 ≡ a) × ((respond req x).1 ≡ y)
answered f req x (resp, posted, status, (decodes, same, zero, result)) =
    let r = (respond req x).0 in
    let (body, moved) = posted_body req.id r posted in
    (
      read_accepted f req.id r (rw body at zero),
      sym (read_result f req.id r) ∙ rw body at result,
      moved,
    )

abbrev asks : ℕ → (method : String) → Params → RpcRequest
asks id method params = record { ver = "2.0"; id = id; method = method; params = params }

change-others :
    (ps : Params) (q : String) (x : Exports) (p : String)
    → names_subsystem ps ≡ some q
    → (p == q) ≡ false
    → (change ps x).1 p ≡ x p
change-others (Params.nqn r) q x p names h = ground (arith, names, h)
change-others (Params.subsystem r any serial model) q x p names h = ground (arith, names, h)
change-others (Params.add_ns r bdev) q x p names h = ground (arith, names, h)
change-others (Params.add_listener r a b c d) q x p names h = ground (arith, names, h)
change-others (Params.remove_ns r n) q x p names h = ground (arith, names, h)
change-others _ q x p names h = refl

-- The target keeps the laws of its methods.
pub view : TargetView target
view = record {
  exports = λ x. x;
  left_alone = λ req x p h. ground arith;
  listed = λ id q x h.
      let (kept, same, moved) =
        answered (λ ls. ls) (asks id "nvmf_subsystem_get_listeners" (Params.nqn q)) x h in
      elim (Option-cases (x q)) [
        | inl e ↦ absurd (ground (arith, e, kept))
        | inr (e, k) ↦ (e, k, ground (arith, k, same))
      ];
  created = λ id q serial model any x h.
      let (kept, same, moved) =
        answered (λ ls. tt) (asks id "nvmf_create_subsystem" (Params.subsystem q any serial model))
          x h in
      (ground arith, λ p. ap (λ (y : Exports). y p) (sym moved) ∙ ground (arith, kept));
  ns_added = λ id q bdev x h p.
      let (kept, same, moved) =
        answered (λ ls. 1) (asks id "nvmf_subsystem_add_ns" (Params.add_ns q bdev)) x h in
      ap (λ (y : Exports). y p) (sym moved) ∙ ground (arith, kept);
  listener_added = λ id q l x h p.
      let (kept, same, moved) =
        answered (λ ls. tt)
          (asks id "nvmf_subsystem_add_listener"
            (Params.add_listener q l.trtype l.adrfam l.traddr l.trsvcid))
          x h in
      ap (λ (y : Exports). y p) (sym moved) ∙ ground (arith, kept);
  others_kept = λ req q x p names h. ground (arith, change-others req.params q x p names h);
  deleted = λ id q x h p.
      let (kept, same, moved) =
        answered (λ ls. tt) (asks id "nvmf_delete_subsystem" (Params.nqn q)) x h in
      ap (λ (y : Exports). y p) (sym moved) ∙ ground (arith, kept);
}

pub view-exports : (x : Exports) (p : String) → view.exports x p ≡ x p
unfolding view
view-exports x p = refl
