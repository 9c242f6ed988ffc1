-- ===== src/Prelude/Words.antt =====
-- uint8, uint16 and uint32 as native numbers, with the wrap-around and the masks written out.
use Prim.Native.Nat.{ℕ, zero, suc, ◌*◌, ◌/◌, ◌%◌, ◌^◌, ◌<◌, bit_and}
use mathlib.Core.Path.{◌≡◌, refl}
use mathlib.Core.Bool.{Bool, true, ◌&&◌}
use native.Mathlib.Omega.{arith}
use rtio.Prelude.Tests.{◌==◌, ==_iff}

-- The conversions `uint8(x)`, `uint16(x)` and `uint32(x)`.
abbrev pub u8 : ℕ → ℕ
u8 x = x % 256

abbrev pub u16 : ℕ → ℕ
u16 x = x % 65536

abbrev pub u32 : ℕ → ℕ
u32 x = x % 4294967296

-- `x >> k`.
abbrev pub shr : ℕ → ℕ → ℕ
shr x k = x / 2 ^ k

-- `x << k` in each width.
abbrev pub shl8 : ℕ → ℕ → ℕ
shl8 x k = u8 (x * 2 ^ k)

abbrev pub shl16 : ℕ → ℕ → ℕ
shl16 x k = u16 (x * 2 ^ k)

abbrev pub shl32 : ℕ → ℕ → ℕ
shl32 x k = u32 (x * 2 ^ k)

-- Masking a byte: the two sides agree on every byte, which evaluation sees.
agree : (ℕ → ℕ) → (ℕ → ℕ) → ℕ → Bool
agree f g zero = true
agree f g (suc bound) = (f bound == g bound) && agree f g bound

agree_sound : (f g : ℕ → ℕ) (bound : ℕ) → agree f g bound ≡ true → (x : ℕ) → x < bound → f x ≡ g x
unfolding agree
agree_sound f g zero table x lt = absurd (omega arith)
agree_sound f g (suc bound) table x lt =
    ground (arith, ==_iff (f bound) (g bound), agree_sound f g bound _ x)

module _ (x : ℕ) (h : x < 256) where
  pub and_f0 : bit_and x 0xF0 ≡ x / 16 * 16
  unfolding agree
  and_f0 = agree_sound (λ y. bit_and y 0xF0) (λ y. y / 16 * 16) 256 refl x h

  pub and_0f : bit_and x 0x0F ≡ x % 16
  unfolding agree
  and_0f = agree_sound (λ y. bit_and y 0x0F) (λ y. y % 16) 256 refl x h

  pub and_07 : bit_and x 0x07 ≡ x % 8
  unfolding agree
  and_07 = agree_sound (λ y. bit_and y 0x07) (λ y. y % 8) 256 refl x h

  pub and_03 : bit_and x 0x03 ≡ x % 4
  unfolding agree
  and_03 = agree_sound (λ y. bit_and y 0x03) (λ y. y % 4) 256 refl x h

  pub and_01 : bit_and x 0x01 ≡ x % 2
  unfolding agree
  and_01 = agree_sound (λ y. bit_and y 0x01) (λ y. y % 2) 256 refl x h

  pub and_80 : bit_and x 0x80 ≡ x / 128 * 128
  unfolding agree
  and_80 = agree_sound (λ y. bit_and y 0x80) (λ y. y / 128 * 128) 256 refl x h

  pub and_c0 : bit_and x 0xC0 ≡ x / 64 * 64
  unfolding agree
  and_c0 = agree_sound (λ y. bit_and y 0xC0) (λ y. y / 64 * 64) 256 refl x h

  pub and_ff : bit_and x 0xFF ≡ x
  unfolding agree
  and_ff = agree_sound (λ y. bit_and y 0xFF) (λ y. y) 256 refl x h
