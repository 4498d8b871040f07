-- ===== src/Base/Bits.antt =====
-- Bit masks: `|`, `&` and `~` on words, read bit by bit.
use Prim.Native.Nat.{
  ℕ, zero, suc, ◌+◌, ◌-◌, ◌*◌, ◌/◌, ◌%◌, ◌^◌, ◌≤◌, ◌<◌, min, max, bit_and, bit_or, digits,
  bit_and-bitwise, bit_or-bitwise,
}
use mathlib.Core.Path.{◌≡◌, refl, ap, ◌∙◌}
use mathlib.Core.Logic.{◌≢◌}
use native.Mathlib.Nat.{pow-suc, one-le-pow, le_refl}
use native.Mathlib.Decide.{ℕ_discrete}
use native.Mathlib.Omega.{arith}

-- `&` and `|` are instances of one recursion over the binary digits. Its fuel does not matter once it
-- reaches the first word.
module _ (rest : ℕ → ℕ) (pick : ℕ → ℕ → ℕ) where
  fuel_irrelevant : (x y k l : ℕ) → x ≤ k → x ≤ l → digits rest pick k x y ≡ digits rest pick l x y
  fuel_irrelevant zero y zero zero h h' = refl
  fuel_irrelevant zero y zero (suc l) h h' = refl
  fuel_irrelevant zero y (suc k) zero h h' = refl
  fuel_irrelevant zero y (suc k) (suc l) h h' = refl
  fuel_irrelevant (suc x) y zero l h h' = elim h [ ]
  fuel_irrelevant (suc x) y (suc k) zero h h' = elim h' [ ]
  fuel_irrelevant (suc x) y (suc k) (suc l) h h' =
      let tail = fuel_irrelevant (suc x / 2) (y / 2) k l (omega arith) (omega arith) in omega arith

  -- One digit is split off.
  digits_step :
      (x y : ℕ)
      → digits rest pick (suc x) (suc x) y
        ≡ digits rest pick (suc x / 2) (suc x / 2) (y / 2) * 2 + pick (suc x % 2) (y % 2)
  digits_step x y =
      let tail = fuel_irrelevant (suc x / 2) (y / 2) x (suc x / 2) (omega arith) (omega arith) in
      omega arith

bit_and_step : (a b : ℕ) → bit_and a b ≡ bit_and (a / 2) (b / 2) * 2 + min (a % 2) (b % 2)
bit_and_step zero b = rw (bit_and-bitwise 0 b, bit_and-bitwise 0 (b / 2)) (omega arith)
bit_and_step (suc a) b =
    rw (bit_and-bitwise (suc a) b, bit_and-bitwise (suc a / 2) (b / 2)) (digits_step _ min a b)

bit_or_step : (a b : ℕ) → bit_or a b ≡ bit_or (a / 2) (b / 2) * 2 + max (a % 2) (b % 2)
bit_or_step zero b = rw (bit_or-bitwise 0 b, bit_or-bitwise 0 (b / 2)) (omega arith)
bit_or_step (suc a) b =
    rw (bit_or-bitwise (suc a) b, bit_or-bitwise (suc a / 2) (b / 2)) (digits_step _ max a b)

-- Bit `i` of a word, as 0 or 1.
abbrev pub bit : ℕ → ℕ → ℕ
bit zero a = a % 2
bit (suc i) a = bit i (a / 2)

pub bit-le-one : (i a : ℕ) → bit i a ≤ 1
bit-le-one zero a = omega arith
bit-le-one (suc i) a = bit-le-one i (a / 2)

pub bit-bit_and : (i a b : ℕ) → bit i (bit_and a b) ≡ min (bit i a) (bit i b)
bit-bit_and zero a b = omega (arith, bit_and_step a b)
bit-bit_and (suc i) a b =
    ap (bit i) (omega (arith, bit_and_step a b)) ∙ bit-bit_and i (a / 2) (b / 2)

pub bit-bit_or : (i a b : ℕ) → bit i (bit_or a b) ≡ max (bit i a) (bit i b)
bit-bit_or zero a b = omega (arith, bit_or_step a b)
bit-bit_or (suc i) a b = ap (bit i) (omega (arith, bit_or_step a b)) ∙ bit-bit_or i (a / 2) (b / 2)

pub bit-zero : (i : ℕ) → bit i 0 ≡ 0
bit-zero zero = refl
bit-zero (suc i) = bit-zero i

half-pow-suc : (t : ℕ) → 2 ^ suc t / 2 ≡ 2 ^ t
half-pow-suc t = omega (arith, pow-suc 2 t)

pub bit-pow_self : (t : ℕ) → bit t (2 ^ t) ≡ 1
bit-pow_self zero = refl
bit-pow_self (suc t) = ap (bit t) (half-pow-suc t) ∙ bit-pow_self t

pub bit-pow_ne : (i t : ℕ) → i ≢ t → bit i (2 ^ t) ≡ 0
bit-pow_ne zero zero h = absurd (h refl)
bit-pow_ne zero (suc t) h = omega (arith, pow-suc 2 t)
bit-pow_ne (suc i) zero h = bit-zero i
bit-pow_ne (suc i) (suc t) h = ap (bit i) (half-pow-suc t) ∙ bit-pow_ne i t (λ e. h (ap suc e))

-- `~b` in a word of `k` bits flips each of them.
abbrev pub bit_not : ℕ → ℕ → ℕ
bit_not k b = 2 ^ k - 1 - b

half-bit_not : (k b : ℕ) → b < 2 ^ suc k → bit_not (suc k) b / 2 ≡ bit_not k (b / 2)
half-bit_not k b h = omega (arith, pow-suc 2 k)

pub bit-bit_not : (i k b : ℕ) → i < k → b < 2 ^ k → bit i (bit_not k b) ≡ 1 - bit i b
bit-bit_not i zero b p h = absurd (omega arith)
bit-bit_not zero (suc k) b p h = omega (arith, pow-suc 2 k)
bit-bit_not (suc i) (suc k) b p h =
    ap (bit i) (half-bit_not k b h)
    ∙ bit-bit_not i k (b / 2) (omega arith) (omega (arith, pow-suc 2 k))

-- A word none of whose bits is set is 0.
pub eq-zero_of_bits : (k a : ℕ) → a < 2 ^ k → ((i : ℕ) → i < k → bit i a ≡ 0) → a ≡ 0
eq-zero_of_bits zero a h z = omega arith
eq-zero_of_bits (suc k) a h z = omega (
  arith,
  z 0 (omega arith),
  eq-zero_of_bits k (a / 2) (omega (arith, pow-suc 2 k)) (λ i p. z (suc i) (omega arith)),
)

pub bit_and-lt : (k a b : ℕ) → a < 2 ^ k → bit_and a b < 2 ^ k
bit_and-lt zero zero b h = omega (arith, bit_and-bitwise 0 b)
bit_and-lt zero (suc a) b h = absurd (omega arith)
bit_and-lt (suc k) a b h = omega (
  arith,
  bit_and_step a b,
  pow-suc 2 k,
  bit_and-lt k (a / 2) (b / 2) (omega (arith, pow-suc 2 k)),
)

pub bit_or-lt : (k a b : ℕ) → a < 2 ^ k → b < 2 ^ k → bit_or a b < 2 ^ k
bit_or-lt zero zero b h h' = omega (arith, bit_or-bitwise 0 b)
bit_or-lt zero (suc a) b h h' = absurd (omega arith)
bit_or-lt (suc k) a b h h' = omega (
  arith,
  bit_or_step a b,
  pow-suc 2 k,
  bit_or-lt k (a / 2) (b / 2) (omega (arith, pow-suc 2 k)) (omega (arith, pow-suc 2 k)),
)

bit_or-zero_fuel : (n a : ℕ) → a ≤ n → bit_or a 0 ≡ a
bit_or-zero_fuel n zero h = refl
bit_or-zero_fuel zero (suc a) h = absurd (omega arith)
bit_or-zero_fuel (suc n) (suc a) h =
    omega (arith, bit_or_step (suc a) 0, bit_or-zero_fuel n (suc a / 2) (omega arith))

-- `(q << k) | r` and `r | (q << k)` are sums when `r` fits `k` bits.
pub bit_or_fields : (k q r : ℕ) → r < 2 ^ k → bit_or (q * 2 ^ k) r ≡ q * 2 ^ k + r
bit_or_fields zero q r h =
    let e : r ≡ 0 = omega arith in
    let e' : q * 2 ^ 0 ≡ q * 2 ^ 0 + 0 = omega arith in
    rw e (bit_or-zero_fuel (q * 2 ^ 0) (q * 2 ^ 0) (le_refl _) ∙ e')
bit_or_fields (suc k) q r h =
    let e : q * 2 ^ suc k ≡ 2 * (q * 2 ^ k) = omega (arith, ap (λ (t : ℕ). q * t) (pow-suc 2 k)) in
    let half : q * 2 ^ suc k / 2 ≡ q * 2 ^ k = omega arith in
    let low : q * 2 ^ suc k % 2 ≡ 0 = omega arith in
    let ih = bit_or_fields k q (r / 2) (omega (arith, pow-suc 2 k)) in
    bit_or_step (q * 2 ^ suc k) r ∙ rw (half, low) (omega (arith, ih))

pub bit_or_fields_low : (k q r : ℕ) → r < 2 ^ k → bit_or r (q * 2 ^ k) ≡ q * 2 ^ k + r
bit_or_fields_low zero q r h =
    let e : r ≡ 0 = omega arith in
    let e' : q * 2 ^ 0 ≡ q * 2 ^ 0 + 0 = omega arith in rw e (bit_or-bitwise 0 (q * 2 ^ 0) ∙ e')
bit_or_fields_low (suc k) q r h =
    let e : q * 2 ^ suc k ≡ 2 * (q * 2 ^ k) = omega (arith, ap (λ (t : ℕ). q * t) (pow-suc 2 k)) in
    let half : q * 2 ^ suc k / 2 ≡ q * 2 ^ k = omega arith in
    let low : q * 2 ^ suc k % 2 ≡ 0 = omega arith in
    let ih = bit_or_fields_low k q (r / 2) (omega (arith, pow-suc 2 k)) in
    bit_or_step r (q * 2 ^ suc k) ∙ rw (half, low) (omega (arith, ih))

pub pow-lt-pow : (t k : ℕ) → t < k → 2 ^ t < 2 ^ k
pow-lt-pow t zero h = absurd (omega arith)
pow-lt-pow zero (suc k) h = omega (arith, pow-suc 2 k, one-le-pow k 2 (omega arith))
pow-lt-pow (suc t) (suc k) h = omega (arith, pow-suc 2 k, pow-suc 2 t, pow-lt-pow t k (omega arith))

-- The words that the masks are changed to, bit by bit.
pub bit-added : (i t m : ℕ) → i ≢ t → bit i (bit_or m (2 ^ t)) ≡ bit i m
bit-added i t m h = bit-bit_or i m (2 ^ t) ∙ omega (arith, bit-pow_ne i t h, bit-le-one i m)

pub bit-added_self : (t m : ℕ) → bit t (bit_or m (2 ^ t)) ≡ 1
bit-added_self t m = bit-bit_or t m (2 ^ t) ∙ omega (arith, bit-pow_self t, bit-le-one t m)

pub bit-cleared :
    (k i t m : ℕ) → i < k → t < k → i ≢ t → bit i (bit_and m (bit_not k (2 ^ t))) ≡ bit i m
bit-cleared k i t m p q h =
    bit-bit_and i m (bit_not k (2 ^ t))
    ∙ omega (arith, bit-bit_not i k (2 ^ t) p (pow-lt-pow t k q), bit-pow_ne i t h, bit-le-one i m)

pub bit-cleared_self : (k t m : ℕ) → t < k → bit t (bit_and m (bit_not k (2 ^ t))) ≡ 0
bit-cleared_self k t m q =
    bit-bit_and t m (bit_not k (2 ^ t))
    ∙ omega (arith, bit-bit_not t k (2 ^ t) q (pow-lt-pow t k q), bit-pow_self t)

-- `(m & (1 << t)) == 0` reads bit `t`.
pub bit_and-pow-eq-zero : (k t m : ℕ) → m < 2 ^ k → bit t m ≡ 0 → bit_and m (2 ^ t) ≡ 0
bit_and-pow-eq-zero k t m h z =
    eq-zero_of_bits k (bit_and m (2 ^ t)) (bit_and-lt k m (2 ^ t) h) (λ i p.
      bit-bit_and i m (2 ^ t) ∙ elim (ℕ_discrete i t) [
        | yes e ↦ let e' : bit i m ≡ 0 = ap (λ j. bit j m) e ∙ z in omega arith
        | no n ↦ omega (arith, bit-pow_ne i t n)
      ])

pub bit_and-pow-ne-zero : (t m : ℕ) → bit t m ≡ 1 → bit_and m (2 ^ t) ≢ 0
bit_and-pow-ne-zero t m h e =
    let b : bit t (bit_and m (2 ^ t)) ≡ 0 = ap (bit t) e ∙ bit-zero t in
    omega (arith, bit-bit_and t m (2 ^ t), bit-pow_self t)
