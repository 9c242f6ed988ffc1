-- ===== src/Device/State/Reading.antt =====
-- Reading from the device's connection.
use rtio.Prelude.{
  ℕ, ◌≡◌, List, ◌++◌, length, ok, arith, le→ltb_false, length-append, take-append, drop-append,
}
use rtio.Device.State.{DeviceSession, read_full}

pub read_full_lem :
    (n : ℕ) (s : DeviceSession) (xs rest : List ℕ)
    → s.conn_in ≡ xs ++ rest
    → length xs ≡ n
    → read_full n s ≡ (ok xs, record s { conn_in = rest })
unfolding read_full
read_full_lem n s xs rest e k = rw (
  e,
  ← k,
  le→ltb_false (length (xs ++ rest)) (length xs) (omega (arith, length-append xs rest)),
  take-append xs rest,
  drop-append xs rest,
)
