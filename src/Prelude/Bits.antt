-- ===== src/Prelude/Bits.antt =====
-- Masks and shifts on one byte as arithmetic: each is a table of 256 entries, checked by evaluation.
use Prim.Native.Nat.{
  ℕ, zero, suc, ◌+◌, ◌*◌, ◌/◌, ◌%◌, ◌^◌, ◌≤◌, ◌<◌, bit_and, bit_or, max, min, bit_and-bitwise,
  digits, bit_or-bitwise,
}
use mathlib.Core.Path.{◌≡◌, refl, sym, ap, ◌∙◌}
use mathlib.Core.Bool.{Bool, true, false}
use mathlib.Core.Logic.{ite}
use native.Mathlib.Decide.{ℕ_discrete}
use native.Mathlib.Omega.{arith}
use native.Mathlib.Nat.{pow-suc, one-le-pow}
use vpl_jail_system.Prelude.Digits.{bitwise-step}
use native.Mathlib.Numerals.{towards_suc}

module _ (f g : ℕ → ℕ) where
  agree_below : ℕ → Bool
  unfolding ℕ_discrete
  agree_below zero = true
  agree_below (suc n) = ite (ℕ_discrete (f n) (g n)) (agree_below n) false

  agree_below→eq : (n : ℕ) → agree_below n ≡ true → (i : ℕ) → i < n → f i ≡ g i
  unfolding agree_below
  agree_below→eq zero e i h = absurd (omega arith)
  agree_below→eq (suc n) e i h = ground (arith, agree_below→eq n (ground arith) i)

pub and_80 : (b : ℕ) → b < 256 → bit_and b 0x80 ≡ b / 128 * 128
unfolding agree_below
and_80 = agree_below→eq _ _ 256 refl

pub and_7f : (b : ℕ) → b < 256 → bit_and b 0x7f ≡ b % 128
unfolding agree_below
and_7f = agree_below→eq _ _ 256 refl

pub and_e0 : (b : ℕ) → b < 256 → bit_and b 0xe0 ≡ b / 32 * 32
unfolding agree_below
and_e0 = agree_below→eq _ _ 256 refl

pub and_f0 : (b : ℕ) → b < 256 → bit_and b 0xf0 ≡ b / 16 * 16
unfolding agree_below
and_f0 = agree_below→eq _ _ 256 refl

pub and_f8 : (b : ℕ) → b < 256 → bit_and b 0xf8 ≡ b / 8 * 8
unfolding agree_below
and_f8 = agree_below→eq _ _ 256 refl

pub and_c0 : (b : ℕ) → b < 256 → bit_and b 0xc0 ≡ b / 64 * 64
unfolding agree_below
and_c0 = agree_below→eq _ _ 256 refl

pub and_3f : (b : ℕ) → b < 256 → bit_and b 0x3f ≡ b % 64
unfolding agree_below
and_3f = agree_below→eq _ _ 256 refl

pub and_1f : (b : ℕ) → b < 256 → bit_and b 0x1f ≡ b % 32
unfolding agree_below
and_1f = agree_below→eq _ _ 256 refl

pub and_0f : (b : ℕ) → b < 256 → bit_and b 0x0f ≡ b % 16
unfolding agree_below
and_0f = agree_below→eq _ _ 256 refl

pub and_07 : (b : ℕ) → b < 256 → bit_and b 0x07 ≡ b % 8
unfolding agree_below
and_07 = agree_below→eq _ _ 256 refl

pub and_70 : (b : ℕ) → b < 256 → bit_and b 0x70 ≡ b / 16 % 8 * 16
unfolding agree_below
and_70 = agree_below→eq _ _ 256 refl

pub or_80 : (b : ℕ) → b < 128 → bit_or 0x80 b ≡ 128 + b
unfolding agree_below
or_80 = agree_below→eq _ _ 128 refl

pub and_low : (b : ℕ) → b < 128 → bit_and 0xff b ≡ b
unfolding agree_below
and_low = agree_below→eq _ _ 128 refl

pub bit_or_step : (a b : ℕ) → bit_or a b ≡ bit_or (a / 2) (b / 2) * 2 + max (a % 2) (b % 2)
bit_or_step a b =
    bit_or-bitwise a b
    ∙ bitwise-step (λ t. t) max (λ t. omega arith) a b
    ∙ ap (λ t. t * 2 + max (a % 2) (b % 2)) (sym (bit_or-bitwise (a / 2) (b / 2)))

max-digits : (n a : ℕ) → a ≤ n → digits (λ t. t) max n a 0 ≡ a
max-digits zero a h = omega arith
max-digits (suc n) zero h = refl
max-digits (suc n) (suc a) h = omega (arith, max-digits n (suc a / 2) (omega arith))

pub bit_or-zero : (a : ℕ) → bit_or a 0 ≡ a
bit_or-zero a = bit_or-bitwise a 0 ∙ max-digits a a (omega arith)

shift_suc : (a k : ℕ) → a * 2 ^ suc k ≡ (a * 2 ^ k) * 2
shift_suc a k = omega (arith, ap (λ (t : ℕ). a * t) (pow-suc 2 k))

pow_suc : (k : ℕ) → 2 ^ suc k ≡ 2 ^ k * 2
pow_suc k = omega (arith, pow-suc 2 k)

halve : (n : ℕ) → (n * 2 / 2 ≡ n) × (n * 2 % 2 ≡ 0)
halve n = omega arith

-- `(a << k) | b` adds, where `b` has no bit at `k` or above.
pub bit_or_shifted : (k a b : ℕ) → b < 2 ^ k → bit_or (a * 2 ^ k) b ≡ a * 2 ^ k + b
bit_or_shifted zero a b h =
    let e : b ≡ 0 = omega arith in
    let e' : a * 2 ^ 0 ≡ a = omega arith in rw (e', e) (bit_or-zero a ∙ omega arith)
bit_or_shifted (suc k) a b h =
    let ih = bit_or_shifted k a (b / 2) (omega (arith, pow_suc k)) in
    rw (shift_suc a k) (
      bit_or_step (a * 2 ^ k * 2) b
      ∙ rw ((halve (a * 2 ^ k)).0, (halve (a * 2 ^ k)).1, ih) (omega arith))

pub bit_and_step : (a b : ℕ) → bit_and a b ≡ bit_and (a / 2) (b / 2) * 2 + min (a % 2) (b % 2)
bit_and_step a b =
    bit_and-bitwise a b
    ∙ bitwise-step (λ t. 0) min (λ t. omega arith) a b
    ∙ ap (λ t. t * 2 + min (a % 2) (b % 2)) (sym (bit_and-bitwise (a / 2) (b / 2)))

min-digits : (n a : ℕ) → digits (λ t. 0) min n a 0 ≡ 0
min-digits zero a = refl
min-digits (suc n) zero = refl
min-digits (suc n) (suc a) = omega (arith, min-digits n (suc a / 2))

-- The low eight bits take eight steps.
and_1 : (a : ℕ) → bit_and a 1 ≡ a % 2
and_1 a = omega (arith, bit_and_step a 1, bit_and-bitwise (a / 2) 0, min-digits (a / 2) (a / 2))

and_3 : (a : ℕ) → bit_and a 3 ≡ a % 4
and_3 a = omega (arith, bit_and_step a 3, and_1 (a / 2))

and_f : (a : ℕ) → bit_and a 15 ≡ a % 16
and_f a = omega (arith, bit_and_step a 15, bit_and_step (a / 2) 7, and_3 (a / 2 / 2))

and_3f_all : (a : ℕ) → bit_and a 63 ≡ a % 64
and_3f_all a = omega (arith, bit_and_step a 63, bit_and_step (a / 2) 31, and_f (a / 2 / 2))

pub and_ff : (a : ℕ) → bit_and a 0xff ≡ a % 256
and_ff a = omega (arith, bit_and_step a 255, bit_and_step (a / 2) 127, and_3f_all (a / 2 / 2))

pow_eight : (k : ℕ) → 2 ^ (k + 8) ≡ 256 * 2 ^ k
pow_eight k = simp towards_suc (omega arith)

-- Bytes joined by shifts, the highest first.
pub or_join :
    (k hi lo : ℕ) → lo < 256 → bit_or (hi * 2 ^ (k + 8)) (lo * 2 ^ k) ≡ (hi * 256 + lo) * 2 ^ k
or_join k hi lo h =
    let e = pow_eight k in
    let pos = one-le-pow k 2 in
    let fits : lo * 2 ^ k < 2 ^ (k + 8) = rw e (below (2 ^ k) (omega (arith, pos))) in
    bit_or_shifted (k + 8) hi (lo * 2 ^ k) fits ∙ rw e (omega arith)
  where
    below : (p : ℕ) → 0 < p → lo * p < 256 * p
    below p pos = grind arith
