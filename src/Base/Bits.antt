-- ===== src/Base/Bits.antt =====
-- `^` at variables, as laws on binary digits. The libraries have none.
use Prim.Native.Nat.{
  ℕ, zero, suc, ◌+◌, ◌-◌, ◌*◌, ◌/◌, ◌%◌, ◌≤◌, ◌<◌, ◌^◌, bit_xor, bitwise, digits, differ,
  bit_xor-bitwise, bit_or, bit_or-bitwise, max,
}
use mathlib.Core.Path.{◌≡◌, refl, sym, ap, ◌∙◌}
use mathlib.Core.Bool.{Bool, true, ◌&&◌}
use native.Mathlib.Omega.{arith}
use native.Mathlib.Nat.{pow-suc}

-- A recursion on the digits of its first number, `keep` where that is used up and `join` on two digits.
module _ (keep : ℕ → ℕ) (join : ℕ → ℕ → ℕ) where
  used_up : (fuel y : ℕ) → digits keep join fuel 0 y ≡ keep y
  used_up zero y = refl
  used_up (suc fuel) y = refl

  -- Fuel beyond `need` changes nothing.
  spare_fuel :
      (need more less x y : ℕ)
      → x ≤ need
      → digits keep join (need + more) x y ≡ digits keep join (need + less) x y
  spare_fuel need more less zero y h = used_up (need + more) y ∙ sym (used_up (need + less) y)
  spare_fuel zero more less (suc x) y h = elim h [ ]
  spare_fuel (suc need) more less (suc x) y h =
      let shifted : (spare : ℕ) → suc need + spare ≡ suc (need + spare) = λ spare. omega arith in
      ap (λ fuel. digits keep join fuel (suc x) y) (shifted more)
      ∙ ap (λ rest. rest * 2 + join (suc x % 2) (y % 2))
          (spare_fuel need more less (suc x / 2) (y / 2) (omega arith))
      ∙ ap (λ fuel. digits keep join fuel (suc x) y) (sym (shifted less))

  top_digits :
      (x y : ℕ) → digits keep join x (suc x / 2) (y / 2) ≡ bitwise keep join (suc x / 2) (y / 2)
  top_digits x y =
      let half : ℕ = suc x / 2 in
      let all : half + (x - half) ≡ x = omega arith in
      let none : half + 0 ≡ half = omega arith in
      ap (λ fuel. digits keep join fuel half (y / 2)) (sym all)
      ∙ spare_fuel half (x - half) 0 half (y / 2) (omega arith)
      ∙ ap (λ fuel. digits keep join fuel half (y / 2)) none

  low_digit :
      (x y : ℕ)
      → bitwise keep join (suc x) y
        ≡ bitwise keep join (suc x / 2) (y / 2) * 2 + join (suc x % 2) (y % 2)
  low_digit x y = ap (λ rest. rest * 2 + join (suc x % 2) (y % 2)) (top_digits x y)

differ-digits : (x y : ℕ) → x < 2 → y < 2 → differ x y ≡ (x + y) % 2
differ-digits zero y p q = omega arith
differ-digits (suc zero) zero p q = refl
differ-digits (suc zero) (suc zero) p q = refl
differ-digits (suc zero) (suc (suc y)) p q = absurd (omega arith)
differ-digits (suc (suc x)) y p q = absurd (omega arith)

pub zero-bit_xor : (b : ℕ) → bit_xor 0 b ≡ b
zero-bit_xor b = bit_xor-bitwise 0 b

-- The lowest digit of `a ^ b`, and what is above it.
pub bit_xor_step : (a b : ℕ) → bit_xor a b ≡ bit_xor (a / 2) (b / 2) * 2 + (a + b) % 2
bit_xor_step zero b = omega (arith, zero-bit_xor b, zero-bit_xor (b / 2))
bit_xor_step (suc a) b = omega (
  arith,
  bit_xor-bitwise (suc a) b,
  bit_xor-bitwise (suc a / 2) (b / 2),
  low_digit (λ y. y) differ a b,
  differ-digits (suc a % 2) (b % 2) (omega arith) (omega arith),
)

bit_xor_self_fuel : (n a : ℕ) → a ≤ n → bit_xor a a ≡ 0
bit_xor_self_fuel n zero h = refl
bit_xor_self_fuel zero (suc a) h = absurd (omega arith)
bit_xor_self_fuel (suc n) (suc a) h =
    omega (arith, bit_xor_step (suc a) (suc a), bit_xor_self_fuel n (suc a / 2) (omega arith))

pub bit_xor_self : (a : ℕ) → bit_xor a a ≡ 0
bit_xor_self a = bit_xor_self_fuel a a (omega arith)

bit_xor_comm_fuel : (n a b : ℕ) → a ≤ n → b ≤ n → bit_xor a b ≡ bit_xor b a
bit_xor_comm_fuel zero zero zero p q = refl
bit_xor_comm_fuel zero zero (suc b) p q = absurd (omega arith)
bit_xor_comm_fuel zero (suc a) b p q = absurd (omega arith)
bit_xor_comm_fuel (suc n) a b p q = omega (
  arith,
  bit_xor_step a b,
  bit_xor_step b a,
  bit_xor_comm_fuel n (a / 2) (b / 2) (omega arith) (omega arith),
)

pub bit_xor_comm : (a b : ℕ) → bit_xor a b ≡ bit_xor b a
bit_xor_comm a b = bit_xor_comm_fuel (a + b) a b (omega arith) (omega arith)

bit_xor_assoc_fuel :
    (n a b c : ℕ) → a ≤ n → b ≤ n → c ≤ n → bit_xor (bit_xor a b) c ≡ bit_xor a (bit_xor b c)
bit_xor_assoc_fuel zero zero b c p q r = rw (zero-bit_xor b, zero-bit_xor (bit_xor b c))
bit_xor_assoc_fuel zero (suc a) b c p q r = absurd (omega arith)
bit_xor_assoc_fuel (suc n) a b c p q r =
    let left : bit_xor a b / 2 ≡ bit_xor (a / 2) (b / 2) = omega (arith, bit_xor_step a b) in
    let right : bit_xor b c / 2 ≡ bit_xor (b / 2) (c / 2) = omega (arith, bit_xor_step b c) in
    rw (bit_xor_step (bit_xor a b) c, bit_xor_step a (bit_xor b c), left, right)
      (omega (
        arith,
        bit_xor_step a b,
        bit_xor_step b c,
        bit_xor_assoc_fuel n (a / 2) (b / 2) (c / 2) (omega arith) (omega arith) (omega arith),
      ))

pub bit_xor_assoc : (a b c : ℕ) → bit_xor (bit_xor a b) c ≡ bit_xor a (bit_xor b c)
bit_xor_assoc a b c = bit_xor_assoc_fuel (a + b + c) a b c (omega arith) (omega arith) (omega arith)

pub bit_xor-zero : (a : ℕ) → bit_xor a 0 ≡ a
bit_xor-zero a = bit_xor_comm a 0 ∙ zero-bit_xor a

pub bit_xor_cancel : (a b c : ℕ) → bit_xor a b ≡ bit_xor a c → b ≡ c
bit_xor_cancel a b c h = sym (undo b) ∙ ap (bit_xor a) h ∙ undo c
  where
    undo : (x : ℕ) → bit_xor a (bit_xor a x) ≡ x
    undo x = sym (bit_xor_assoc a a x) ∙ ap (λ t. bit_xor t x) (bit_xor_self a) ∙ zero-bit_xor x

pub bit_xor-lt : (k a b : ℕ) → a < 2 ^ k → b < 2 ^ k → bit_xor a b < 2 ^ k
bit_xor-lt zero zero zero p q = omega arith
bit_xor-lt zero zero (suc b) p q = absurd (omega arith)
bit_xor-lt zero (suc a) b p q = absurd (omega arith)
bit_xor-lt (suc k) a b p q = omega (
  arith,
  pow-suc 2 k,
  bit_xor_step a b,
  bit_xor-lt k (a / 2) (b / 2) (omega (arith, pow-suc 2 k)) (omega (arith, pow-suc 2 k)),
)

-- `^` of two bytes is a byte.
pub bit_xor-byte : (a b : ℕ) → a < 256 → b < 256 → bit_xor a b < 256
bit_xor-byte a b p q = bit_xor-lt 8 a b p q

-- Fields that do not overlap: `^` is the sum.
pub bit_xor_fields : (k q r : ℕ) → r < 2 ^ k → bit_xor (q * 2 ^ k) r ≡ q * 2 ^ k + r
bit_xor_fields zero q zero h = omega (arith, bit_xor-zero (q * 1))
bit_xor_fields zero q (suc r) h = absurd (omega arith)
bit_xor_fields (suc k) q r h =
    let shifted : q * 2 ^ suc k ≡ 2 * (q * 2 ^ k) =
      omega (arith, ap (λ (t : ℕ). q * t) (pow-suc 2 k)) in
    let half : q * 2 ^ suc k / 2 ≡ q * 2 ^ k = omega arith in
    rw (bit_xor_step (q * 2 ^ suc k) r, half)
      (omega (arith, shifted, bit_xor_fields k q (r / 2) (omega (arith, pow-suc 2 k))))

-- A test of a byte or a bit number, tried on every number below the bound.
unfoldable pub tried_below : ℕ → (ℕ → Bool) → Bool
tried_below zero test = true
tried_below (suc bound) test = tried_below bound test && test bound

pub tried_at :
    (bound : ℕ) (test : ℕ → Bool) (k : ℕ)
    → tried_below bound test ≡ true
    → k < bound
    → test k ≡ true
unfolding tried_below
tried_at zero test k passed inside = elim inside [ ]
tried_at (suc bound) test k passed inside = ground (arith, tried_at bound test k)

pub bit_or_step : (a b : ℕ) → bit_or a b ≡ bit_or (a / 2) (b / 2) * 2 + max (a % 2) (b % 2)
bit_or_step zero b = omega (arith, bit_or-bitwise 0 b, bit_or-bitwise 0 (b / 2))
bit_or_step (suc a) b = omega (
  arith,
  bit_or-bitwise (suc a) b,
  bit_or-bitwise (suc a / 2) (b / 2),
  low_digit (λ y. y) max a b,
)

bit_or-zero_fuel : (n a : ℕ) → a ≤ n → bit_or a 0 ≡ a
bit_or-zero_fuel n zero h = refl
bit_or-zero_fuel zero (suc a) h = absurd (omega arith)
bit_or-zero_fuel (suc n) (suc a) h =
    omega (arith, bit_or_step (suc a) 0, bit_or-zero_fuel n (suc a / 2) (omega arith))

-- `(q << k) | r` is a sum when `r` fits `k` bits.
pub bit_or_fields : (k q r : ℕ) → r < 2 ^ k → bit_or (q * 2 ^ k) r ≡ q * 2 ^ k + r
bit_or_fields zero q zero h = omega (arith, bit_or-zero_fuel (q * 1) (q * 1) (omega arith))
bit_or_fields zero q (suc r) h = absurd (omega arith)
bit_or_fields (suc k) q r h =
    let shifted : q * 2 ^ suc k ≡ 2 * (q * 2 ^ k) =
      omega (arith, ap (λ (t : ℕ). q * t) (pow-suc 2 k)) in
    let half : q * 2 ^ suc k / 2 ≡ q * 2 ^ k = omega arith in
    rw (bit_or_step (q * 2 ^ suc k) r, half)
      (omega (arith, shifted, bit_or_fields k q (r / 2) (omega (arith, pow-suc 2 k))))
