-- ===== src/Util/Size.antt =====
-- util/util.go: `ToMiB`.
use nvmeof_csi.Base.{
  ℕ, ◌-◌, ◌/◌, ◌+◌, ◌*◌, ◌≤◌, ◌<◌, ◌^◌, ◌≡◌, ◌⊎◌, inl, inr, true, false, leb, Bool-cases, arith,
}
use nvmeof_csi.Base.Int.{ℤ, pos, negsuc, to_uint64, to_int64, add_int64, quotient}

-- `(bytes + mi - 1) / mi` on int64
unfoldable pub to_mib : ℤ → ℤ
to_mib bytes = quotient (add_int64 (add_int64 bytes (pos (1024 * 1024))) (negsuc 0)) (1024 * 1024)

to_uint64-to_int64 : (w : ℕ) → w < 2 ^ 64 → to_uint64 (to_int64 w) ≡ w
to_uint64-to_int64 w h = ground arith

-- The two additions wrap around once.
to_mib_lem : (n : ℕ) → n < 2 ^ 63 → to_mib (pos n) ≡ quotient (to_int64 (n + 1048575)) 1048576
unfolding to_mib
to_mib_lem n h = ground (arith, to_uint64-to_int64 (n + 1048576))

-- A size of at most 2^63 - 2^20 bytes is rounded up: the result is the least number of MiB that holds
-- the bytes.
to_mib_rounds_up :
    (n : ℕ)
    → n ≤ 2 ^ 63 - 2 ^ 20
    → (k : ℕ) × (to_mib (pos n) ≡ pos k) × (n ≤ k * 1048576) × (k * 1048576 < n + 1048576)
to_mib_rounds_up n h =
    ((n + 1048575) / 1048576, ground (arith, to_mib_lem n), omega arith, omega arith)

-- A larger int64 overflows: the result is negative.
to_mib_overflows :
    (n : ℕ) → 2 ^ 63 - 2 ^ 20 < n → n < 2 ^ 63 → (m : ℕ) × (to_mib (pos n) ≡ negsuc m)
to_mib_overflows n low high = ((2 ^ 64 - (n + 1048575)) / 1048576 - 1, ground (arith, to_mib_lem n))

leb_below : {a b : ℕ} → leb a b ≡ true → a ≤ b
leb_below h = ground (arith, h)

leb_above : {a b : ℕ} → leb a b ≡ false → b < a
leb_above h = ground (arith, h)

-- `ToMiB` on every int64 that is not negative: a size of at most 2^63 - 2^20 bytes is rounded up to the
-- least number of MiB that holds the bytes, and the sum of a larger one overflows, so that the
-- result is negative.
pub to_mib_bounds :
    (n : ℕ)
    → n < 2 ^ 63
    → ((n ≤ 2 ^ 63 - 2 ^ 20)
        × ((k : ℕ) × (to_mib (pos n) ≡ pos k) × (n ≤ k * 1048576) × (k * 1048576 < n + 1048576)))
      ⊎ ((2 ^ 63 - 2 ^ 20 < n) × ((m : ℕ) × (to_mib (pos n) ≡ negsuc m)))
to_mib_bounds n small = elim (Bool-cases (leb n (2 ^ 63 - 2 ^ 20))) [
  | inl low ↦ inl (leb_below low, to_mib_rounds_up n (leb_below low))
  | inr high ↦ inr (leb_above high, to_mib_overflows n (leb_above high) small)
]
