-- ===== src/Utils.antt =====
-- pkg/rtioutils: random ids, and writing a whole buffer to a connection.
pub mod Writing
mod Examples
use rtio.Prelude.{
  ℕ, zero, suc, ◌+◌, Bool, true, false, Option, none, some, List, length, drop, ltb, if◌then◌else◌,
  u16, u32, Outcome, ok, err, panic,
}

-- `rand.Int` gives a number below its bound, or a nil pointer and an error. `r.Uint64()` is called
-- before the error is looked at, and panics on nil.
unfoldable pub gen_uint16_id {ℓ} : {E : Type ℓ} → Option ℕ → Outcome E ℕ
gen_uint16_id none = panic
gen_uint16_id (some r) = ok (u16 r)

unfoldable pub gen_uint32_id {ℓ} : {E : Type ℓ} → Option ℕ → Outcome E ℕ
gen_uint32_id none = panic
gen_uint32_id (some r) = ok (u32 r)

-- What `w.Write` returns: how many bytes it took, and whether there was an error.
pub record Written : Type 0 where
  pub taken : ℕ
  pub failed : Bool

-- The number of bytes written, and whether there was an error.
pub record Total : Type 0 where
  pub writelen : ℕ
  pub failed : Bool

-- WriteFull with fuel: `none` means that the fuel ran out. The connection is a function of the
-- bytes offered and of how many rounds went before.
unfoldable pub write_full : ℕ → (ℕ → List ℕ → Written) → ℕ → List ℕ → ℕ → Option Total
write_full zero write round buf writelen = none
write_full (suc fuel) write round buf writelen =
    let w = write round (drop writelen buf) in
    let next = write_full fuel write (round + 1) buf (writelen + w.taken) in
    if ltb writelen (length buf)
    then (if w.failed then some (record { writelen = writelen + w.taken; failed = true }) else next)
    else some (record { writelen = writelen; failed = false })
