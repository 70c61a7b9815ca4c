-- ===== src/Driver/Node/Attempts/Bounds.antt =====
-- driver/nodeserver.go: the mounts after any requests to a node, each of which may succeed or fail.
use nvmeof_csi.Base.{
  ℕ, ◌≤◌, String, ◌≡◌, ◌≢◌, inl, inr, nat_eq, string_eq, List, [], ◌∷◌, arith, final,
}
use nvmeof_csi.Host.{Host}
use nvmeof_csi.Host.Laws.{MountTable, MountView, MountFailures}
use nvmeof_csi.Locks.{Server}
use nvmeof_csi.Locks.Laws.{AllFree}
use nvmeof_csi.Driver.Node.Table.{Request, stages, unstages, publishes, unpublishes, handle}
use nvmeof_csi.Driver.Node.Attempts.Handlers.{touched, Change, handle-Changes}

-- The state after the requests, one after another, whether they succeed or fail.
unfoldable pub attempt_all : (H : Host) → List Request → Server H.State → Server H.State
unfolding handle
attempt_all H [] s = s
attempt_all H (r ∷ rs) s = attempt_all H rs (final (handle H r s))

-- No request publishes on the path.
abbrev pub NeverPublished : String → List Request → Type 0
NeverPublished p [] = Unit
NeverPublished p (publishes req ∷ rs) = (p ≢ req.target_path) × NeverPublished p rs
NeverPublished p (stages req ∷ rs) = NeverPublished p rs
NeverPublished p (unstages id staging ∷ rs) = NeverPublished p rs
NeverPublished p (unpublishes id target ∷ rs) = NeverPublished p rs

module _ (H : Host) (V : MountView H) (M : MountTable H V) (F : MountFailures H V) where
  -- One request keeps a path that it does not publish on at one mount.
  handle_at_most_one :
      (r : Request) (p : String) (s : Server H.State)
      → AllFree s.locks
      → (p ≡ touched r → (n m : ℕ) → Change r n m → n ≤ 1 → m ≤ 1)
      → V.depth s.world p ≤ 1
      → V.depth (final (handle H r s)).world p ≤ 1
  handle_at_most_one r p s free bounded few = elim ((handle-Changes H V M F r s free).0 p) [
    | inl same ↦ omega (arith, same, few)
    | inr (at, c) ↦ bounded at _ _ c few
  ]

  -- On a machine that keeps the mount rules, and where a mount or an unmount that fails leaves the mounts
  -- as they were or one more, or one less, on its own path; started with every mutex free: after any
  -- requests to a node, one after another, whether each succeeds or fails, a path that none of them
  -- publishes on and that had at most one mount has at most one mount, and every mutex is free.
  pub attempt_all_at_most_one :
      (reqs : List Request) (p : String) (s : Server H.State)
      → AllFree s.locks
      → NeverPublished p reqs
      → V.depth s.world p ≤ 1
      → (V.depth (attempt_all H reqs s).world p ≤ 1) × AllFree (attempt_all H reqs s).locks
  unfolding attempt_all
  attempt_all_at_most_one [] p s free never few = (few, free)
  attempt_all_at_most_one (stages req ∷ rs) p s free never few =
      attempt_all_at_most_one rs p _ (handle-Changes H V M F (stages req) s free).1 never
        (handle_at_most_one (stages req) p s free (λ at n m c l. omega (arith, c)) few)
  attempt_all_at_most_one (unstages id staging ∷ rs) p s free never few =
      attempt_all_at_most_one rs p _ (handle-Changes H V M F (unstages id staging) s free).1 never
        (handle_at_most_one (unstages id staging) p s free (λ at n m c l. omega (arith, c, l)) few)
  attempt_all_at_most_one (publishes req ∷ rs) p s free (apart, never) few =
      attempt_all_at_most_one rs p _ (handle-Changes H V M F (publishes req) s free).1 never
        (handle_at_most_one (publishes req) p s free (λ at n m c l. absurd (apart at)) few)
  attempt_all_at_most_one (unpublishes id target ∷ rs) p s free never few =
      attempt_all_at_most_one rs p _ (handle-Changes H V M F (unpublishes id target) s free).1 never
        (handle_at_most_one (unpublishes id target) p s free (λ at n m c l. omega (arith, c, l))
          few)
