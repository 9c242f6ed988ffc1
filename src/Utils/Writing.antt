-- ===== src/Utils/Writing.antt =====
-- WriteFull ends, and writes all of its buffer unless a write fails.
use rtio.Prelude.{
  ℕ, zero, suc, ◌+◌, ◌≤◌, ◌<◌, ◌≡◌, refl, true, false, some, ltb, Bool-cases, ◌⊎◌, inl, inr, List,
  length, drop, arith, length-drop,
}
use rtio.Utils.{Written, Total, write_full}

-- What net.Conn documents of Write, and that a write without an error makes progress.
pub record IsWriter (write : ℕ → List ℕ → Written) : Type 0 where
  pub within : (n : ℕ) (b : List ℕ) → (write n b).taken ≤ length b
  pub progress :
      (n : ℕ) (b : List ℕ) → 1 ≤ length b → (write n b).failed ≡ false → 1 ≤ (write n b).taken

-- A write after `round` and within the buffer has failed, and `t` counts the bytes up to it.
abbrev pub FailedWrite : (ℕ → List ℕ → Written) → ℕ → List ℕ → Total → Type 0
FailedWrite write round buf t =
    (n at : ℕ) × (round ≤ n)
    × ((write n (drop at buf)).failed ≡ true)
    × (t.writelen ≡ at + (write n (drop at buf)).taken)

-- Over a writer that takes no more than it is offered, and at least one byte unless it fails, one
-- round for each byte that is left and one more are enough fuel, and the loop never claims more than
-- the buffer holds. Either it reports no error and has written the whole buffer, or it reports one, and
-- a write that it made failed, up to the end of which it counts.
pub write_full_ends :
    (fuel : ℕ) (write : ℕ → List ℕ → Written) (round : ℕ) (buf : List ℕ) (writelen : ℕ)
    → IsWriter write
    → writelen ≤ length buf
    → length buf < fuel + writelen
    → (r : Total) × (write_full fuel write round buf writelen ≡ some r)
      × (r.writelen ≤ length buf)
      × (((r.failed ≡ false) × (r.writelen ≡ length buf))
          ⊎ ((r.failed ≡ true) × FailedWrite write round buf r))
unfolding write_full
write_full_ends zero write round buf n w le enough = ground arith
write_full_ends (suc fuel) write round buf n w le enough = elim (Bool-cases (ltb n (length buf))) [
  | inl lt ↦ elim (Bool-cases (write round (drop n buf)).failed) [
    | inl f ↦ (
      record { writelen = n + (write round (drop n buf)).taken; failed = true },
      rw (lt, f) refl,
      ground (arith, w.within round (drop n buf), length-drop n buf),
      inr (refl, (round, n, omega arith, f, refl)),
    )
    | inr g ↦
        let ih =
          write_full_ends fuel write (round + 1) buf (n + (write round (drop n buf)).taken) w
            (ground (arith, w.within round (drop n buf), length-drop n buf))
            (ground (arith, w.progress round (drop n buf), length-drop n buf)) in
        (
          ih.0,
          rw (lt, g) ih.1,
          ih.2,
          elim ih.3 [
            | inl done ↦ inl done
            | inr (q, (k, at, le2, fails, sum)) ↦ inr (q, (k, at, omega (arith, le2), fails, sum))
          ],
        )
  ]
  | inr ge ↦ (record { writelen = n; failed = false }, rw ge refl, le, inl (refl, ground arith))
]
