-- ===== src/Base/Bits.antt =====
-- Laws of `&`, `|` and `^` on unsigned words at variables, from the recursion on binary digits.
use Prim.Native.Nat.{
  differ, ℕ, zero, suc, ◌+◌, ◌-◌, ◌*◌, ◌/◌, ◌%◌, ◌^◌, ◌≤◌, ◌<◌, min, max, digits, bitwise, bit_and,
  bit_or, bit_xor, bit_and-bitwise, bit_or-bitwise, bit_xor-bitwise,
}
use mathlib.Core.Path.{◌≡◌, refl, sym, ap, ◌∙◌}
use mathlib.Core.Logic.{◌↔◌}
use native.Mathlib.Nat.{le_refl, pow-suc, one-le-pow, div-div-eq-div-mul}
use native.Mathlib.Decide.{dec_le}
use native.Mathlib.Omega.{arith}

-- The recursion on digits takes its fuel from the first word. More fuel changes nothing.
module _ (rest : ℕ → ℕ) (digit : ℕ → ℕ → ℕ) where
  one_more : (n v w : ℕ) → v ≤ n → digits rest digit (suc n) v w ≡ digits rest digit n v w
  one_more zero zero w h = refl
  one_more zero (suc v) w h = absurd (omega arith)
  one_more (suc n) zero w h = refl
  one_more (suc n) (suc v) w h = rw (one_more n (suc v / 2) (w / 2) (omega arith)) refl

  more_fuel : (m n v w : ℕ) → v ≤ n → n ≤ m → digits rest digit m v w ≡ digits rest digit n v w
  more_fuel zero n v w h k = let none : n ≡ 0 = omega arith in rw none refl
  more_fuel (suc m) n v w h k = elim (dec_le n m) [
    | yes below ↦ one_more m v w (omega arith) ∙ more_fuel m n v w h below
    | no above ↦ let same : n ≡ suc m = omega arith in rw same refl
  ]

  -- One equation for the lowest digit, without fuel.
  lowest_digit :
      (v w : ℕ)
      → bitwise rest digit (suc v) w
        ≡ bitwise rest digit (suc v / 2) (w / 2) * 2 + digit (suc v % 2) (w % 2)
  lowest_digit v w =
      omega (arith, more_fuel v (suc v / 2) (suc v / 2) (w / 2) (omega arith) (omega arith))

bit_and_step : (v w : ℕ) → bit_and v w ≡ bit_and (v / 2) (w / 2) * 2 + min (v % 2) (w % 2)
bit_and_step zero w = simp bit_and-bitwise (omega arith)
bit_and_step (suc v) w = simp bit_and-bitwise (lowest_digit (λ y. 0) min v w)

bit_or_step : (v w : ℕ) → bit_or v w ≡ bit_or (v / 2) (w / 2) * 2 + max (v % 2) (w % 2)
bit_or_step zero w = simp bit_or-bitwise (omega arith)
bit_or_step (suc v) w = simp bit_or-bitwise (lowest_digit (λ y. y) max v w)

differ_lem : (x y : ℕ) → differ x y ≡ (x - y) + (y - x)
differ_lem zero y = omega arith
differ_lem (suc x) zero = omega arith
differ_lem (suc x) (suc y) = omega (arith, differ_lem x y)

pub bit_xor_step : (a b : ℕ) → bit_xor a b ≡ bit_xor (a / 2) (b / 2) * 2 + (a % 2 + b % 2) % 2
bit_xor_step zero b = simp bit_xor-bitwise (omega arith)
bit_xor_step (suc a) b =
    simp bit_xor-bitwise
      (omega (arith, lowest_digit (λ y. y) differ a b, differ_lem (suc a % 2) (b % 2)))

-- The lowest binary digit of an exclusive or, and the rest.
pub bit_xor_parts :
    (a b : ℕ)
    → (bit_xor a b / 2 ≡ bit_xor (a / 2) (b / 2)) × (bit_xor a b % 2 ≡ (a % 2 + b % 2) % 2)
bit_xor_parts a b = omega (arith, bit_xor_step a b)

pub bit_xor-lt : (k a b : ℕ) → a < 2 ^ k → b < 2 ^ k → bit_xor a b < 2 ^ k
bit_xor-lt zero zero zero ha hb = omega arith
bit_xor-lt zero zero (suc b) ha hb = absurd (omega arith)
bit_xor-lt zero (suc a) b ha hb = absurd (omega arith)
bit_xor-lt (suc k) a b ha hb =
    let ea : a / 2 < 2 ^ k = omega (arith, pow-suc 2 k) in
    let eb : b / 2 < 2 ^ k = omega (arith, pow-suc 2 k) in
    omega (arith, pow-suc 2 k, bit_xor_step a b, bit_xor-lt k (a / 2) (b / 2) ea eb)

-- An exclusive or is undone by a second one with the same word.
pub bit_xor_cancel : (k a b : ℕ) → a < 2 ^ k → b < 2 ^ k → bit_xor (bit_xor a b) b ≡ a
bit_xor_cancel zero zero zero ha hb = refl
bit_xor_cancel zero zero (suc b) ha hb = absurd (omega arith)
bit_xor_cancel zero (suc a) b ha hb = absurd (omega arith)
bit_xor_cancel (suc k) a b ha hb =
    let ea : a / 2 < 2 ^ k = omega (arith, pow-suc 2 k) in
    let eb : b / 2 < 2 ^ k = omega (arith, pow-suc 2 k) in
    let half : bit_xor (bit_xor a b / 2) (b / 2) ≡ a / 2 =
      rw ((bit_xor_parts a b).0) (bit_xor_cancel k (a / 2) (b / 2) ea eb) in
    omega (arith, bit_xor_step (bit_xor a b) b, (bit_xor_parts a b).1, half)

pub bit_xor_injective :
    (k a b c : ℕ) → a < 2 ^ k → b < 2 ^ k → c < 2 ^ k → bit_xor a c ≡ bit_xor b c → a ≡ b
bit_xor_injective k a b c ha hb hc e =
    sym (bit_xor_cancel k a c ha hc) ∙ ap (λ t. bit_xor t c) e ∙ bit_xor_cancel k b c hb hc

pub bit_xor_comm : (k a b : ℕ) → a < 2 ^ k → b < 2 ^ k → bit_xor a b ≡ bit_xor b a
bit_xor_comm zero zero zero ha hb = refl
bit_xor_comm zero zero (suc b) ha hb = absurd (omega arith)
bit_xor_comm zero (suc a) b ha hb = absurd (omega arith)
bit_xor_comm (suc k) a b ha hb =
    let ea : a / 2 < 2 ^ k = omega (arith, pow-suc 2 k) in
    let eb : b / 2 < 2 ^ k = omega (arith, pow-suc 2 k) in
    omega (arith, bit_xor_step a b, bit_xor_step b a, bit_xor_comm k (a / 2) (b / 2) ea eb)

pub bit_or_comm : (k a b : ℕ) → a < 2 ^ k → b < 2 ^ k → bit_or a b ≡ bit_or b a
bit_or_comm zero zero zero ha hb = refl
bit_or_comm zero zero (suc b) ha hb = absurd (omega arith)
bit_or_comm zero (suc a) b ha hb = absurd (omega arith)
bit_or_comm (suc k) a b ha hb =
    let rest =
      bit_or_comm k (a / 2) (b / 2) (omega (arith, pow-suc 2 k)) (omega (arith, pow-suc 2 k)) in
    omega (arith, bit_or_step a b, bit_or_step b a, rest)

double_pow : (q k : ℕ) → q * 2 ^ suc k ≡ 2 * (q * 2 ^ k)
double_pow q k = omega (arith, ap (λ (t : ℕ). q * t) (pow-suc 2 k))

-- `r | (q << k)` is a sum when `r` fits in `k` bits.
pub bit_or_fields : (k r q : ℕ) → r < 2 ^ k → bit_or r (q * 2 ^ k) ≡ r + q * 2 ^ k
bit_or_fields zero zero q h = simp bit_or-bitwise (omega arith)
bit_or_fields zero (suc r) q h = absurd (omega arith)
bit_or_fields (suc k) r q h = ground (
  arith,
  bit_or_step r (q * 2 ^ suc k),
  double_pow q k,
  pow-suc 2 k,
  bit_or_fields k (r / 2) q (omega (arith, pow-suc 2 k)),
)

no_bits : (n v : ℕ) → v ≤ n → bit_and v 0 ≡ 0
no_bits n zero h = refl
no_bits zero (suc v) h = absurd (omega arith)
no_bits (suc n) (suc v) h =
    omega (arith, bit_and_step (suc v) 0, no_bits n (suc v / 2) (omega arith))

bit_and-zero : (v : ℕ) → bit_and v 0 ≡ 0
bit_and-zero v = no_bits v v (le_refl v)

-- `&` with twice a mask leaves out the lowest digit.
bit_and_even : (a m : ℕ) → bit_and a (2 * m) ≡ 2 * bit_and (a / 2) m
bit_and_even a m =
    let e : 2 * m / 2 ≡ m = omega arith in
    omega (arith, bit_and_step a (2 * m), ap (bit_and (a / 2)) e)

-- `&` with a single bit tests that digit.
pub bit_and_bit : (k a : ℕ) → bit_and a (2 ^ k) ≡ a / 2 ^ k % 2 * 2 ^ k
bit_and_bit zero a = omega (arith, bit_and_step a 1, bit_and-zero (a / 2))
bit_and_bit (suc k) a =
    let two : 2 ^ suc k ≡ 2 * 2 ^ k = omega (arith, pow-suc 2 k) in
    let deep : a / 2 / 2 ^ k ≡ a / (2 * 2 ^ k) = div-div-eq-div-mul a 2 (2 ^ k) in
    rw (two, bit_and_even a (2 ^ k), bit_and_bit k (a / 2), deep) (grind arith)

pub bit_and_mask : (k a : ℕ) → bit_and a (2 ^ k - 1) ≡ a % 2 ^ k
bit_and_mask zero a = omega (arith, bit_and-zero a)
bit_and_mask (suc k) a =
    let pos : 1 ≤ 2 ^ k = one-le-pow k 2 (omega arith) in
    let two : 2 ^ suc k ≡ 2 * 2 ^ k = omega (arith, pow-suc 2 k) in
    let half : (2 ^ suc k - 1) / 2 ≡ 2 ^ k - 1 = omega arith in
    let odd : (2 ^ suc k - 1) % 2 ≡ 1 = omega arith in
    let deep : a / 2 / 2 ^ k ≡ a / (2 * 2 ^ k) = div-div-eq-div-mul a 2 (2 ^ k) in
    ground (arith, bit_and_step a (2 ^ suc k - 1), bit_and_mask k (a / 2))

bit_and_parts :
    (a b : ℕ)
    → (bit_and a b / 2 ≡ bit_and (a / 2) (b / 2)) × (bit_and a b % 2 ≡ min (a % 2) (b % 2))
bit_and_parts a b = omega (arith, bit_and_step a b)

-- Masking twice is masking once.
pub bit_and_again : (n h k : ℕ) → h < 2 ^ n → k < 2 ^ n → bit_and (bit_and h k) k ≡ bit_and h k
bit_and_again zero zero k hh hk = simp bit_and-bitwise refl
bit_and_again zero (suc h) k hh hk = absurd (omega arith)
bit_and_again (suc n) h k hh hk =
    let rest : bit_and (bit_and h k / 2) (k / 2) ≡ bit_and h k / 2 =
      rw ((bit_and_parts h k).0) (
        bit_and_again n (h / 2) (k / 2) (omega (arith, pow-suc 2 n))
          (omega (arith, pow-suc 2 n))) in
    omega (arith, bit_and_step (bit_and h k) k, (bit_and_parts h k).1, rest)

-- `m & !k == 0` just when masking with `k` keeps `m`.
pub bit_and_complement :
    (n m k : ℕ) → m < 2 ^ n → k < 2 ^ n → (bit_and m (2 ^ n - 1 - k) ≡ 0) ↔ (bit_and m k ≡ m)
bit_and_complement zero zero k hm hk =
    (λ h. simp bit_and-bitwise refl, λ h. simp bit_and-bitwise refl)
bit_and_complement zero (suc m) k hm hk = absurd (omega arith)
bit_and_complement (suc n) m k hm hk =
    let two = pow-suc 2 n in
    let half : (2 ^ suc n - 1 - k) / 2 ≡ 2 ^ n - 1 - k / 2 = omega (arith, two) in
    let low : (2 ^ suc n - 1 - k) % 2 ≡ 1 - k % 2 = omega (arith, two) in
    let rest = bit_and_complement n (m / 2) (k / 2) (omega (arith, two)) (omega (arith, two)) in
    let not_k : bit_and m (2 ^ suc n - 1 - k)
        ≡ bit_and (m / 2) (2 ^ n - 1 - k / 2) * 2 + min (m % 2) (1 - k % 2) =
      bit_and_step m (2 ^ suc n - 1 - k) ∙ rw (half, low) refl in
    let with_k = bit_and_step m k in
    (
      λ h. let kept = rest.0 (omega (arith, not_k, h)) in omega (arith, not_k, with_k, kept, h),
      λ h.
          let cleared = rest.1 (omega (arith, with_k, h)) in
          omega (arith, not_k, with_k, cleared, h),
    )
