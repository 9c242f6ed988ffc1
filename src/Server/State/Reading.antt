-- ===== src/Server/State/Reading.antt =====
-- Reading from the connection.
use rtio.Prelude.{
  ℕ, ◌≤◌, ◌<◌, ◌≡◌, List, [], ◌++◌, length, take, drop, ok, err, arith, le→ltb_false, lt→ltb,
  length-append, take-append, drop-append,
}
use rtio.Server.State.{Session, read_full, conn_read}

pub read_full_lem :
    (n : ℕ) (s : Session) (xs rest : List ℕ)
    → s.conn_in ≡ xs ++ rest
    → length xs ≡ n
    → read_full n s ≡ (ok xs, record s { conn_in = rest })
unfolding read_full
read_full_lem n s xs rest e k = rw (
  e,
  ← k,
  le→ltb_false (length (xs ++ rest)) (length xs) (omega (arith, length-append xs rest)),
  take-append xs rest,
  drop-append xs rest,
)

pub read_full_short :
    (n : ℕ) (s : Session)
    → length s.conn_in < n
    → read_full n s ≡ (err conn_read, record s { conn_in = [] })
unfolding read_full
read_full_short n s h = rw (lt→ltb (length s.conn_in) n h)

pub read_full_enough :
    (n : ℕ) (s : Session)
    → n ≤ length s.conn_in
    → read_full n s ≡ (ok (take n s.conn_in), record s { conn_in = drop n s.conn_in })
unfolding read_full
read_full_enough n s h = rw (le→ltb_false (length s.conn_in) n h)
