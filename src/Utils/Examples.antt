-- ===== src/Utils/Examples.antt =====
-- WriteFull over a connection that takes two bytes at a time.
use rtio.Prelude.{
  ℕ, ◌≤◌, ◌≡◌, ◌⊎◌, true, false, some, List, [], ◌∷◌, length, ltb, if◌then◌else◌, arith,
}
use rtio.Utils.{Written, Total, write_full}
use rtio.Utils.Writing.{IsWriter, FailedWrite, write_full_ends}

abbrev two_at_a_time : ℕ → List ℕ → Written
two_at_a_time n b = record { taken = if ltb (length b) 2 then length b else 2; failed = false }

two_at_a_time-IsWriter : IsWriter two_at_a_time
two_at_a_time-IsWriter = record { within = λ n b. ground arith; progress = λ n b h e. ground arith }

write_full_ends_example :
    (r : Total) × (write_full 6 two_at_a_time 0 (1 ∷ 2 ∷ 3 ∷ 4 ∷ 5 ∷ []) 0 ≡ some r)
    × (r.writelen ≤ 5)
    × (((r.failed ≡ false) × (r.writelen ≡ 5))
        ⊎ ((r.failed ≡ true) × FailedWrite two_at_a_time 0 (1 ∷ 2 ∷ 3 ∷ 4 ∷ 5 ∷ []) r))
write_full_ends_example =
    write_full_ends 6 two_at_a_time 0 (1 ∷ 2 ∷ 3 ∷ 4 ∷ 5 ∷ []) 0 two_at_a_time-IsWriter
      (omega arith) (omega arith)
