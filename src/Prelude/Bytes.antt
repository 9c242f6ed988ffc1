-- ===== src/Prelude/Bytes.antt =====
-- Lists of bytes.
use Prim.Native.Nat.{ℕ, zero, suc, ◌<◌}
use mathlib.Core.List.{List, [], ◌∷◌, ◌++◌}
use rtio.Prelude.Lists.{take, drop}

abbrev pub AllBytes : List ℕ → Type 0
AllBytes [] = Unit {0}
AllBytes (x ∷ xs) = (x < 256) × AllBytes xs

pub append-AllBytes : (xs ys : List ℕ) → AllBytes xs → AllBytes ys → AllBytes (xs ++ ys)
append-AllBytes [] ys h k = k
append-AllBytes (x ∷ xs) ys h k = (h.0, append-AllBytes xs ys h.1 k)

pub take-AllBytes : (n : ℕ) (xs : List ℕ) → AllBytes xs → AllBytes (take n xs)
take-AllBytes zero xs h = tt
take-AllBytes (suc n) [] h = tt
take-AllBytes (suc n) (x ∷ xs) h = (h.0, take-AllBytes n xs h.1)

pub drop-AllBytes : (n : ℕ) (xs : List ℕ) → AllBytes xs → AllBytes (drop n xs)
drop-AllBytes zero xs h = h
drop-AllBytes (suc n) [] h = tt
drop-AllBytes (suc n) (x ∷ xs) h = drop-AllBytes n xs h.1
