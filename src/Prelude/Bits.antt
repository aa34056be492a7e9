-- ===== src/Prelude/Bits.antt =====
-- Facts on masks over small ranges, each from a table that is checked by evaluation.
use Prim.Native.Nat.{ℕ, zero, suc, ◌+◌, ◌*◌, ◌/◌, ◌%◌, ◌<◌, bit_and, bit_or, bit_xor}
use mathlib.Core.Path.{◌≡◌, refl, subst}
use mathlib.Core.Bool.{Bool, true, false, ◌&&◌}
use mathlib.Core.Logic.{ite}
use native.Mathlib.Decide.{ℕ_discrete}
use native.Mathlib.Omega.{arith}

holds_up_to : (ℕ → Bool) → ℕ → Bool
holds_up_to test zero = true
holds_up_to test (suc k) = elim (test k) [ true ↦ holds_up_to test k | false ↦ false ]

every_one :
    (test : ℕ → Bool) (bound : ℕ)
    → holds_up_to test bound ≡ true
    → (i : ℕ) → i < bound
    → test i ≡ true
unfolding holds_up_to
every_one test zero checked i small = absurd (omega arith)
every_one test (suc k) checked i small = ground (arith, every_one test k (ground arith) i)

module _ (f g : ℕ → ℕ) where
  agree_below : ℕ → Bool
  unfolding ℕ_discrete
  agree_below zero = true
  agree_below (suc n) = ite (ℕ_discrete (f n) (g n)) (agree_below n) false

  agree_below→eq : (n : ℕ) → agree_below n ≡ true → (i : ℕ) → i < n → f i ≡ g i
  unfolding agree_below
  agree_below→eq zero e i h = absurd (omega arith)
  agree_below→eq (suc n) e i h = ground (arith, agree_below→eq n (ground arith) i)

-- The masks that the source applies to a byte, as arithmetic.
pub and_7f : (b : ℕ) → b < 256 → bit_and b 0x7f ≡ b % 128
unfolding agree_below
and_7f = agree_below→eq _ _ 256 refl

pub and_80 : (b : ℕ) → b < 256 → bit_and b 0x80 ≡ b / 128 * 128
unfolding agree_below
and_80 = agree_below→eq _ _ 256 refl

pub or_80 : (b : ℕ) → b < 128 → bit_or b 0x80 ≡ b + 128
unfolding agree_below
or_80 = agree_below→eq _ _ 128 refl

pub and_3f : (b : ℕ) → b < 256 → bit_and b 0x3f ≡ b % 64
unfolding agree_below
and_3f = agree_below→eq _ _ 256 refl

pub and_c0 : (b : ℕ) → b < 256 → bit_and b 0xc0 ≡ b / 64 * 64
unfolding agree_below
and_c0 = agree_below→eq _ _ 256 refl

pub and_1f : (b : ℕ) → b < 256 → bit_and b 0x1f ≡ b % 32
unfolding agree_below
and_1f = agree_below→eq _ _ 256 refl

pub and_e0 : (b : ℕ) → b < 256 → bit_and b 0xe0 ≡ b / 32 * 32
unfolding agree_below
and_e0 = agree_below→eq _ _ 256 refl

pub and_0f : (b : ℕ) → b < 256 → bit_and b 0x0f ≡ b % 16
unfolding agree_below
and_0f = agree_below→eq _ _ 256 refl

pub and_f0 : (b : ℕ) → b < 256 → bit_and b 0xf0 ≡ b / 16 * 16
unfolding agree_below
and_f0 = agree_below→eq _ _ 256 refl

pub and_07 : (b : ℕ) → b < 256 → bit_and b 0x07 ≡ b % 8
unfolding agree_below
and_07 = agree_below→eq _ _ 256 refl

pub and_f8 : (b : ℕ) → b < 256 → bit_and b 0xf8 ≡ b / 8 * 8
unfolding agree_below
and_f8 = agree_below→eq _ _ 256 refl

-- Over a uint16_t.
pub and_ff : (b : ℕ) → b < 65536 → bit_and b 0xff ≡ b % 256
unfolding agree_below
and_ff = agree_below→eq _ _ 65536 refl

pub and_unsigned : (b : ℕ) → b < 256 → bit_and b 0xffffffff ≡ b
unfolding agree_below
and_unsigned = agree_below→eq _ _ 256 refl

pub and_zero : (b : ℕ) → b < 256 → bit_and b 0 ≡ 0
unfolding agree_below
and_zero = agree_below→eq _ _ 256 refl

pub or_zero : (b : ℕ) → b < 256 → bit_or b 0 ≡ b
unfolding agree_below
or_zero = agree_below→eq _ _ 256 refl

pub zero_or : (b : ℕ) → b < 256 → bit_or 0 b ≡ b
unfolding agree_below
zero_or = agree_below→eq _ _ 256 refl

-- Facts on two bytes.
is_zero : ℕ → Bool
is_zero zero = true
is_zero (suc n) = false

same : ℕ → ℕ → Bool
same x y = ite (ℕ_discrete x y) true false

below_256 : ℕ → Bool
below_256 n = is_zero (n / 256)

agree : Bool → Bool → Bool
agree true b = b
agree false true = false
agree false false = true

or_is_exact : ℕ → ℕ → Bool
or_is_exact x y = below_256 (bit_or x y) && agree (is_zero (bit_or x y)) (is_zero x && is_zero y)

xor_is_exact : ℕ → ℕ → Bool
xor_is_exact x y = below_256 (bit_xor x y) && agree (is_zero (bit_xor x y)) (same x y)

byte_pairs :
    (p : ℕ → ℕ → Bool)
    → holds_up_to (λ i. p (i / 256) (i % 256)) 65536 ≡ true
    → (x y : ℕ) → x < 256
    → y < 256
    → p x y ≡ true
byte_pairs p e x y hx hy =
    let high : (x * 256 + y) / 256 ≡ x = omega arith in
    let low : (x * 256 + y) % 256 ≡ y = omega arith in
    rw (← high) (
      subst (λ z. p ((x * 256 + y) / 256) z ≡ true) low
        (every_one (λ i. p (i / 256) (i % 256)) 65536 e (x * 256 + y) (omega arith)))

or_test : (x y : ℕ) → x < 256 → y < 256 → or_is_exact x y ≡ true
unfolding holds_up_to or_is_exact is_zero below_256 agree
or_test = byte_pairs or_is_exact refl

xor_test : (x y : ℕ) → x < 256 → y < 256 → xor_is_exact x y ≡ true
unfolding holds_up_to xor_is_exact is_zero below_256 agree same ℕ_discrete
xor_test = byte_pairs xor_is_exact refl

is_zero→eq : (n : ℕ) → is_zero n ≡ true → n ≡ 0
unfolding is_zero
is_zero→eq zero e = refl
is_zero→eq (suc n) e = cc

below_256→lt : (n : ℕ) → below_256 n ≡ true → n < 256
unfolding below_256
below_256→lt n e = omega (arith, is_zero→eq (n / 256) e)

pub or_byte :
    (x y : ℕ) → x < 256 → y < 256 → (bit_or x y < 256) × (bit_or x y ≡ 0 → (x ≡ 0) × (y ≡ 0))
unfolding or_is_exact agree is_zero
or_byte x y hx hy = ground (
  arith,
  or_test x y,
  below_256→lt (bit_or x y),
  is_zero→eq (bit_or x y),
  is_zero→eq x,
  is_zero→eq y,
)

pub xor_byte :
    (x y : ℕ)
    → x < 256
    → y < 256
    → (bit_xor x y < 256) × (bit_xor x y ≡ 0 → x ≡ y) × (x ≡ y → bit_xor x y ≡ 0)
unfolding xor_is_exact agree same is_zero
xor_byte x y hx hy =
    ground (arith, xor_test x y, below_256→lt (bit_xor x y), is_zero→eq (bit_xor x y))
