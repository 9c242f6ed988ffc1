-- ===== src/Prelude/Search.antt =====
-- `bytes.Index` with a separator of one byte.
use Prim.Native.Nat.{ℕ, zero, suc}
use mathlib.Core.Path.{◌≡◌}
use mathlib.Core.Option
use mathlib.Core.Option.{Option, none, some}
use mathlib.Core.List.{List, [], ◌∷◌, ◌++◌}
use native.Mathlib.Omega.{arith}
use rtio.Prelude.Tests.{◌==◌, if◌then◌else◌, ==_refl, ne→==_false}
use rtio.Prelude.Lists.{length, take, drop}

unfoldable pub index_byte : ℕ → List ℕ → Option ℕ
index_byte c [] = none
index_byte c (x ∷ xs) = if x == c then some 0 else Option.map suc (index_byte c xs)

-- No byte of the list is `c`.
abbrev pub Lacks : ℕ → List ℕ → Type 0
Lacks c [] = Unit {0}
Lacks c (x ∷ xs) = (¬ (x ≡ c)) × Lacks c xs

pub index_byte-append :
    (c : ℕ) (xs ys : List ℕ) → Lacks c xs → index_byte c (xs ++ c ∷ ys) ≡ some (length xs)
unfolding index_byte
index_byte-append c [] ys h = rw (==_refl c)
index_byte-append c (x ∷ xs) ys h = rw (ne→==_false x c h.0, index_byte-append c xs ys h.1)

-- The position splits the list at the first `c`.
pub index_byte_split :
    (c : ℕ) (xs : List ℕ) (p : ℕ)
    → index_byte c xs ≡ some p
    → (length (take p xs) ≡ p) × Lacks c (take p xs) × (xs ≡ take p xs ++ c ∷ drop (suc p) xs)
unfolding index_byte
index_byte_split c [] p e = ground arith
index_byte_split c (x ∷ xs) zero e = ground (arith)
index_byte_split c (x ∷ xs) (suc p) e = ground (arith, index_byte_split c xs p)
