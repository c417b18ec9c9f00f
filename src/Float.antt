-- ===== src/Float.antt =====
-- Python's `float`: the language's arithmetic as an interface. `F` stands for the doubles other
-- than NaN, which the program's operations never reach, with 0.0 and -0.0 as one value; the laws are facts of IEEE 754 arithmetic
-- and of `math.floor` and `math.ceil`, none of which says that an operation is exact, except where
-- it is: below 2 ** 53.
pub mod Fixed
use distributed_rate_limiter.Base.{Bool, false, if◌then◌else◌, true, ℕ, ◌^◌, ◌↔◌, ◌≡◌, ◌≤◌}
use distributed_rate_limiter.Base.Int.{ℤ, pos, ◌+ℤ◌, ◌≤ℤ◌}

pub record Float : Type 1 where
  pub F : Type 0
  -- `float(n)`
  pub of_int : ℕ → F
  pub add : F → F → F
  pub sub : F → F → F
  pub mul : F → F → F
  pub div : F → F → F
  -- `a <= b`
  pub le : F → F → Bool
  -- `math.floor`, `math.ceil`
  pub floor : F → ℤ
  pub ceil : F → ℤ

-- The largest integer up to which every integer is a double.
abbrev pub exact_bound : ℕ
exact_bound = 2 ^ 53

pub record IsIeee (fl : Float) : Type 0 where
  pub le_refl : (a : fl.F) → fl.le a a ≡ true
  pub le_trans : (a b c : fl.F) → fl.le a b ≡ true → fl.le b c ≡ true → fl.le a c ≡ true
  pub le_total : (a b : fl.F) → fl.le a b ≡ false → fl.le b a ≡ true
  pub le_antisymm : (a b : fl.F) → fl.le a b ≡ true → fl.le b a ≡ true → a ≡ b
  pub of_int_mono : (m n : ℕ) → m ≤ n → fl.le (fl.of_int m) (fl.of_int n) ≡ true
  pub add_nonneg :
      (a b : fl.F)
      → fl.le (fl.of_int 0) a ≡ true
      → fl.le (fl.of_int 0) b ≡ true
      → fl.le (fl.of_int 0) (fl.add a b) ≡ true
  pub mul_nonneg :
      (a b : fl.F)
      → fl.le (fl.of_int 0) a ≡ true
      → fl.le (fl.of_int 0) b ≡ true
      → fl.le (fl.of_int 0) (fl.mul a b) ≡ true
  pub div_nonneg :
      (a b : fl.F)
      → fl.le (fl.of_int 0) a ≡ true
      → fl.le (fl.of_int 0) b ≡ true
      → fl.le (fl.of_int 0) (fl.div a b) ≡ true
  pub sub_nonneg : (a b : fl.F) → fl.le b a ≡ true → fl.le (fl.of_int 0) (fl.sub a b) ≡ true
  pub sub_le : (a b : fl.F) → fl.le (fl.of_int 0) b ≡ true → fl.le (fl.sub a b) a ≡ true
  pub floor_mono : (a b : fl.F) → fl.le a b ≡ true → fl.floor a ≤ℤ fl.floor b
  pub floor_of_int : (n : ℕ) → n ≤ exact_bound → fl.floor (fl.of_int n) ≡ pos n
  pub floor_galois :
      (n : ℕ) (a : fl.F) → n ≤ exact_bound → (fl.le (fl.of_int n) a ≡ true) ↔ (pos n ≤ℤ fl.floor a)
  -- Subtracting 1 from a double between 1 and 2 ** 53 is exact.
  pub floor_sub_one :
      (a : fl.F)
      → fl.le (fl.of_int 1) a ≡ true
      → fl.le a (fl.of_int exact_bound) ≡ true
      → fl.floor a ≡ fl.floor (fl.sub a (fl.of_int 1)) +ℤ pos 1
  -- `a + 0.0` and `(0 / 1000.0) * r` for a finite `r`.
  pub add_zero : (a : fl.F) → fl.add a (fl.of_int 0) ≡ a
  pub zero_rate :
      (r : fl.F)
      → fl.le r (fl.of_int exact_bound) ≡ true
      → fl.mul (fl.div (fl.of_int 0) (fl.of_int 1000)) r ≡ fl.of_int 0

module _ (fl : Float) where
  open fl use {F, le}

  -- `min(a, b)` and `max(a, b)`
  abbrev pub fmin : F → F → F
  fmin a b = if le a b then a else b

  abbrev pub fmax : F → F → F
  fmax a b = if le b a then a else b
