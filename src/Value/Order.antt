-- ===== src/Value/Order.antt =====
-- Equal numbers compare alike.
use Prim.Native.Nat.{◌^◌}
use ld1_execution_gap_xair.Base.{
  ℕ, zero, suc, ◌+◌, ◌*◌, ◌≤◌, ◌<◌, ◌≡◌, sym, ap, ◌∙◌, true, arith, ltb, ◌==◌,
}
use ld1_execution_gap_xair.Base.Int.{ℤ, pos_part, neg_part, ◌*ℤ◌, *ℤ_parts, ltb_ℤ, eq_ℤ}
use ld1_execution_gap_xair.Value.{Number, finite, num_lt, num_eq}

power_pos : (k : ℕ) → 0 < 10 ^ k
power_pos zero = omega arith
power_pos (suc k) = grind (arith, power_pos k)

mul_le : (a x y : ℕ) → x ≤ y → a * x ≤ a * y
mul_le zero x y h = omega arith
mul_le (suc a) x y h = omega (arith, mul_le a x y h)

mul_lt : (a x y : ℕ) → 0 < a → x < y → a * x < a * y
mul_lt zero x y p h = omega arith
mul_lt (suc a) x y p h = omega (arith, mul_le a x y (omega arith))

-- two comparisons that have a common multiple agree
cross_lt :
    (a b x y x' y' : ℕ) → 0 < a → 0 < b → b * x + a * y' ≡ a * x' + b * y → ltb x y ≡ ltb x' y'
cross_lt a b x y x' y' p q h =
    ground (arith, mul_lt a x' y' p, mul_lt a y' x' p, mul_lt b x y q, mul_lt b y x q)

cross_eq :
    (a b x y x' y' : ℕ) → 0 < a → 0 < b → b * x + a * y' ≡ a * x' + b * y → (x == y) ≡ (x' == y')
cross_eq a b x y x' y' p q h =
    ground (arith, mul_lt a x' y' p, mul_lt a y' x' p, mul_lt b x y q, mul_lt b y x q)

-- the comparison of decimals, on the parts of their mantissas
ltb-parts :
    (j k : ℕ) (m n : ℤ)
    → ltb_ℤ (j *ℤ m) (k *ℤ n)
      ≡ ltb (j * pos_part m + k * neg_part n) (k * pos_part n + j * neg_part m)
ltb-parts j k m n = ground (arith, *ℤ_parts j m, *ℤ_parts k n)

eq-parts :
    (j k : ℕ) (m n : ℤ)
    → eq_ℤ (j *ℤ m) (k *ℤ n) ≡ (j * pos_part m + k * neg_part n == k * pos_part n + j * neg_part m)
eq-parts j k m n = ground (arith, *ℤ_parts j m, *ℤ_parts k n)

-- `a⁺ - a⁻` over `p` and `b⁺ - b⁻` over `q` are equal; then each compares to `c⁺ - c⁻` over `r` alike
cross :
    (p q r a a' b b' c c' : ℕ)
    → q * a + p * b' ≡ p * b + q * a'
    → q * (r * a + p * c') + p * (q * c + r * b') ≡ p * (r * b + q * c') + q * (p * c + r * a')
cross p q r a a' b b' c c' h = omega (arith, ap (λ x. r * x) h)

num_eq-cross :
    (a b : ℤ) (i j : ℕ)
    → num_eq (finite a i) (finite b j) ≡ true
    → 10 ^ j * pos_part a + 10 ^ i * neg_part b ≡ 10 ^ i * pos_part b + 10 ^ j * neg_part a
unfolding num_eq
num_eq-cross a b i j h = ground (arith, eq-parts (10 ^ j) (10 ^ i) a b)

pub num_lt-left : (m n l : Number) → num_eq m n ≡ true → num_lt m l ≡ num_lt n l
unfolding num_lt num_eq
num_lt-left (finite a i) (finite b j) (finite c k) h =
    ltb-parts (10 ^ k) (10 ^ i) a c
    ∙ cross_lt (10 ^ i) (10 ^ j) (10 ^ k * pos_part a + 10 ^ i * neg_part c)
        (10 ^ i * pos_part c + 10 ^ k * neg_part a) (10 ^ k * pos_part b + 10 ^ j * neg_part c)
        (10 ^ j * pos_part c + 10 ^ k * neg_part b) (power_pos i) (power_pos j)
        (cross (10 ^ i) (10 ^ j) (10 ^ k) (pos_part a) (neg_part a) (pos_part b) (neg_part b)
          (pos_part c) (neg_part c) (num_eq-cross a b i j h))
    ∙ sym (ltb-parts (10 ^ k) (10 ^ j) b c)
num_lt-left m n l h = ground arith

pub num_lt-right : (m n l : Number) → num_eq m n ≡ true → num_lt l m ≡ num_lt l n
unfolding num_lt num_eq
num_lt-right (finite a i) (finite b j) (finite c k) h =
    ltb-parts (10 ^ i) (10 ^ k) c a
    ∙ cross_lt (10 ^ i) (10 ^ j) (10 ^ i * pos_part c + 10 ^ k * neg_part a)
        (10 ^ k * pos_part a + 10 ^ i * neg_part c) (10 ^ j * pos_part c + 10 ^ k * neg_part b)
        (10 ^ k * pos_part b + 10 ^ j * neg_part c) (power_pos i) (power_pos j)
        (omega (
          arith,
          cross (10 ^ i) (10 ^ j) (10 ^ k) (pos_part a) (neg_part a) (pos_part b) (neg_part b)
              (pos_part c) (neg_part c) (num_eq-cross a b i j h),
        ))
    ∙ sym (ltb-parts (10 ^ j) (10 ^ k) c b)
num_lt-right m n l h = ground arith

pub num_eq-left : (m n l : Number) → num_eq m n ≡ true → num_eq m l ≡ num_eq n l
unfolding num_lt num_eq
num_eq-left (finite a i) (finite b j) (finite c k) h =
    eq-parts (10 ^ k) (10 ^ i) a c
    ∙ cross_eq (10 ^ i) (10 ^ j) (10 ^ k * pos_part a + 10 ^ i * neg_part c)
        (10 ^ i * pos_part c + 10 ^ k * neg_part a) (10 ^ k * pos_part b + 10 ^ j * neg_part c)
        (10 ^ j * pos_part c + 10 ^ k * neg_part b) (power_pos i) (power_pos j)
        (cross (10 ^ i) (10 ^ j) (10 ^ k) (pos_part a) (neg_part a) (pos_part b) (neg_part b)
          (pos_part c) (neg_part c) (num_eq-cross a b i j h))
    ∙ sym (eq-parts (10 ^ k) (10 ^ j) b c)
num_eq-left m n l h = ground arith

pub num_eq-right : (m n l : Number) → num_eq m n ≡ true → num_eq l m ≡ num_eq l n
unfolding num_lt num_eq
num_eq-right (finite a i) (finite b j) (finite c k) h =
    eq-parts (10 ^ i) (10 ^ k) c a
    ∙ cross_eq (10 ^ i) (10 ^ j) (10 ^ i * pos_part c + 10 ^ k * neg_part a)
        (10 ^ k * pos_part a + 10 ^ i * neg_part c) (10 ^ j * pos_part c + 10 ^ k * neg_part b)
        (10 ^ k * pos_part b + 10 ^ j * neg_part c) (power_pos i) (power_pos j)
        (omega (
          arith,
          cross (10 ^ i) (10 ^ j) (10 ^ k) (pos_part a) (neg_part a) (pos_part b) (neg_part b)
              (pos_part c) (neg_part c) (num_eq-cross a b i j h),
        ))
    ∙ sym (eq-parts (10 ^ j) (10 ^ k) c b)
num_eq-right m n l h = ground arith
