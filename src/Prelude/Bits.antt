-- ===== src/Prelude/Bits.antt =====
-- `&` and `|` on words: the recursion on the lowest digit, and facts about bytes by evaluation.
use Prim.Native.Nat.{
  ℕ, zero, suc, ◌+◌, ◌*◌, ◌/◌, ◌%◌, ◌^◌, ◌≤◌, ◌<◌, max, bit_and, bit_or, digits, bit_or-bitwise,
}
use mathlib.Core.Path.{◌≡◌, refl, sym, ap, ◌∙◌}
use mathlib.Core.Bool.{Bool, true, false}
use native.Mathlib.Omega.{arith}
use native.Mathlib.Nat.{pow-suc}
use rdesktopce_rdp.Prelude.Tests.{◌==◌, ==_iff, ltb, if◌then◌else◌}

-- A test holds for each of the first `n` numbers.
every : (ℕ → Bool) → ℕ → Bool
every test zero = true
every test (suc n) = if test n then every test n else false

every_lem : (test : ℕ → Bool) (n i : ℕ) → i < n → every test n ≡ true → test i ≡ true
unfolding every
every_lem test zero i below all = ground arith
every_lem test (suc n) i below all = ground (arith, every_lem test n i)

-- `& 0x80` tells an octet's upper half from its lower.
top_bit_octets : every (λ b. bit_and b 0x80 == (if ltb b 128 then 0 else 128)) 256 ≡ true
unfolding every
top_bit_octets = refl

pub top_bit : (b : ℕ) → b < 256 → bit_and b 0x80 ≡ (if ltb b 128 then 0 else 128)
top_bit b below = (==_iff _ _).0 (every_lem _ 256 b below top_bit_octets)

-- The digits of `|`: `k` of them, and as many as there are when `k` is large enough.
abbrev joined : ℕ → ℕ → ℕ → ℕ
joined k x y = digits (λ rest. rest) max k x y

joined_stable : (x y k l : ℕ) → x ≤ k → x ≤ l → joined k x y ≡ joined l x y
joined_stable zero y zero zero _ _ = refl
joined_stable zero y zero (suc l) _ _ = refl
joined_stable zero y (suc k) zero _ _ = refl
joined_stable zero y (suc k) (suc l) _ _ = refl
joined_stable (suc x) y zero l small _ = absurd (omega arith)
joined_stable (suc x) y (suc k) zero _ small = absurd (omega arith)
joined_stable (suc x) y (suc k) (suc l) c d =
    let halves = joined_stable (suc x / 2) (y / 2) k l (omega arith) (omega arith) in
    omega (arith, halves)

bit_or-zero_left : (b : ℕ) → bit_or 0 b ≡ b
bit_or-zero_left b = bit_or-bitwise 0 b

pub bit_or_step : (x y : ℕ) → bit_or x y ≡ bit_or (x / 2) (y / 2) * 2 + max (x % 2) (y % 2)
bit_or_step zero y = omega (arith, bit_or-zero_left (y / 2), bit_or-zero_left y)
bit_or_step (suc x) y =
    let half = suc x / 2 in
    let whole = bit_or-bitwise (suc x) y in
    let part = bit_or-bitwise half (y / 2) in
    omega (arith, whole, part, joined_stable half (y / 2) x half (omega arith) (omega arith))

-- The disjunction of two words of `k` bits has `k` bits.
pub bit_or-lt : (k a b : ℕ) → a < 2 ^ k → b < 2 ^ k → bit_or a b < 2 ^ k
bit_or-lt zero zero b p q = omega (arith, bit_or-zero_left b)
bit_or-lt zero (suc a) b p q = absurd (omega arith)
bit_or-lt (suc k) a b p q = omega (
  arith,
  pow-suc 2 k,
  bit_or_step a b,
  bit_or-lt k (a / 2) (b / 2) (omega (arith, pow-suc 2 k)) (omega (arith, pow-suc 2 k)),
)

bit_or-zero_within : (bound x : ℕ) → x ≤ bound → bit_or x 0 ≡ x
bit_or-zero_within zero x small = let x_lem : x ≡ 0 = omega arith in rw x_lem (bit_or-zero_left 0)
bit_or-zero_within (suc bound) zero small = bit_or-zero_left 0
bit_or-zero_within (suc bound) (suc x) small =
    let halves = bit_or-zero_within bound (suc x / 2) (omega arith) in
    omega (arith, halves, bit_or_step (suc x) 0)

pub bit_or-zero : (x : ℕ) → bit_or x 0 ≡ x
bit_or-zero x = bit_or-zero_within x x (omega arith)

-- Words that share no digit: `|` is their sum.
pub bit_or-sum : (k q r : ℕ) → r < 2 ^ k → bit_or (q * 2 ^ k) r ≡ q * 2 ^ k + r
bit_or-sum zero q r h =
    let r_lem : r ≡ 0 = omega arith in rw r_lem (bit_or-zero (q * 1) ∙ omega arith)
bit_or-sum (suc k) q r h =
    let double : q * 2 ^ suc k ≡ 2 * (q * 2 ^ k) =
      omega (arith, ap (λ (t : ℕ). q * t) (pow-suc 2 k)) in
    omega (
      arith,
      double,
      bit_or_step (q * 2 ^ suc k) r,
      bit_or-sum k q (r / 2) (omega (arith, pow-suc 2 k)),
      ap (λ (t : ℕ). bit_or t (r / 2)) half_lem,
    )
  where
    half_lem : q * 2 ^ suc k / 2 ≡ q * 2 ^ k
    half_lem = omega (arith, ap (λ (t : ℕ). q * t) (pow-suc 2 k))

pub bit_or_comm : (n a b : ℕ) → a ≤ n → b ≤ n → bit_or a b ≡ bit_or b a
bit_or_comm n zero b h k = bit_or-zero_left b ∙ sym (bit_or-zero b)
bit_or_comm zero (suc a) b h k = absurd (omega arith)
bit_or_comm (suc n) (suc a) b h k = omega (
  arith,
  bit_or_step (suc a) b,
  bit_or_step b (suc a),
  bit_or_comm n (suc a / 2) (b / 2) (omega arith) (omega arith),
)

-- A top digit above the others.
pub bit_or_high : (k x : ℕ) → x < 2 ^ k → bit_or x (2 ^ k) ≡ x + 2 ^ k
bit_or_high k x h =
    bit_or_comm (x + 2 ^ k) x (2 ^ k) (omega arith) (omega arith)
    ∙ ap (λ t. bit_or t x) one_lem
    ∙ bit_or-sum k 1 x h
    ∙ omega arith
  where
    one_lem : 2 ^ k ≡ 1 * 2 ^ k
    one_lem = omega arith
