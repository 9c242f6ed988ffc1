-- ===== src/Prelude/Masks.antt =====
-- The mask 0xFF on a number of any size: `x & 0xFF` is `x % 256`.
use Prim.Native.Nat.{ℕ, zero, suc, ◌+◌, ◌*◌, ◌/◌, ◌%◌, ◌≤◌, min, bit_and, digits, bit_and-bitwise}
use mathlib.Core.Path.{◌≡◌, refl}
use native.Mathlib.Omega.{arith}

-- The digit recursion that `bit_and` stands for, with its fuel.
abbrev conj : ℕ → ℕ → ℕ → ℕ
conj fuel x y = digits (λ _. 0) min fuel x y

-- Any fuel that is no less than the first number gives the same result.
conj_enough : (f g x y : ℕ) → x ≤ f → x ≤ g → conj f x y ≡ conj g x y
conj_enough zero zero zero y hf hg = refl
conj_enough zero (suc g) zero y hf hg = refl
conj_enough (suc f) zero zero y hf hg = refl
conj_enough (suc f) (suc g) zero y hf hg = refl
conj_enough zero g (suc x) y hf hg = absurd (omega arith)
conj_enough (suc f) zero (suc x) y hf hg = absurd (omega arith)
conj_enough (suc f) (suc g) (suc x) y hf hg =
    omega (arith, conj_enough f g (suc x / 2) (y / 2) (omega arith) (omega arith))

conj-zero : (f x : ℕ) → conj f x 0 ≡ 0
conj-zero zero zero = refl
conj-zero zero (suc x) = refl
conj-zero (suc f) zero = refl
conj-zero (suc f) (suc x) = omega (arith, conj-zero f (suc x / 2))

-- The lowest digit of a conjunction.
and_digit : (x y : ℕ) → bit_and x y ≡ bit_and (x / 2) (y / 2) * 2 + min (x % 2) (y % 2)
and_digit zero y = omega (arith, bit_and-bitwise 0 y, bit_and-bitwise 0 (y / 2))
and_digit (suc x) y = omega (
  arith,
  bit_and-bitwise (suc x) y,
  bit_and-bitwise (suc x / 2) (y / 2),
  conj_enough x (suc x / 2) (suc x / 2) (y / 2) (omega arith) (omega arith),
)

and-zero : (x : ℕ) → bit_and x 0 ≡ 0
and-zero x = omega (arith, bit_and-bitwise x 0, conj-zero x x)

and_15 : (x : ℕ) → bit_and x 15 ≡ x % 16
and_15 x = omega (
  arith,
  and_digit x 15,
  and_digit (x / 2) 7,
  and_digit (x / 2 / 2) 3,
  and_digit (x / 2 / 2 / 2) 1,
  and-zero (x / 2 / 2 / 2 / 2),
)

pub and_255 : (x : ℕ) → bit_and x 255 ≡ x % 256
and_255 x = omega (
  arith,
  and_digit x 255,
  and_digit (x / 2) 127,
  and_digit (x / 2 / 2) 63,
  and_digit (x / 2 / 2 / 2) 31,
  and_15 (x / 2 / 2 / 2 / 2),
)
