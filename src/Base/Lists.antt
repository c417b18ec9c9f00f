-- ===== src/Base/Lists.antt =====
-- Lists measured by native numbers, under the library's names, and predicates by recursion.
use Prim.Native.Nat.{ℕ, zero, suc, ◌+◌, ◌≤◌}
use mathlib.Core.Path.{◌≡◌}
use mathlib.Core.Bool.{Bool, true}
use mathlib.Core.Logic.{◌⊎◌, inl, inr}
use mathlib.Core.List.{List, [], ◌∷◌, ◌++◌}
use mathlib.Core.Option.{Option, none, some}
use native.Mathlib.Omega.{arith}
use distributed_rate_limiter.Base.Tests.{if◌then◌else◌, Bool-cases}

module _ {ℓ} {A : Type ℓ} where
  abbrev pub length : List A → ℕ
  length [] = 0
  length (x ∷ xs) = suc (length xs)

  abbrev pub head? : List A → Option A
  head? [] = none
  head? (x ∷ xs) = some x

  abbrev pub get_elem? : List A → ℕ → Option A
  get_elem? [] i = none
  get_elem? (x ∷ xs) zero = some x
  get_elem? (x ∷ xs) (suc i) = get_elem? xs i

  pub length-append : (xs ys : List A) → length (xs ++ ys) ≡ length xs + length ys
  length-append [] ys = omega arith
  length-append (x ∷ xs) ys = omega (arith, length-append xs ys)

  -- `[x for x in xs if keep(x)]`
  abbrev pub keep_if : (A → Bool) → List A → List A
  keep_if p [] = []
  keep_if p (x ∷ xs) = let rest = keep_if p xs in if p x then x ∷ rest else rest

  abbrev pub count_if : (A → Bool) → List A → ℕ
  count_if p [] = 0
  count_if p (x ∷ xs) = let rest = count_if p xs in if p x then suc rest else rest

abbrev pub All {ℓ κ} : {A : Type ℓ} → (A → Type κ) → List A → Type κ
All P [] = Unit
All P (x ∷ xs) = P x × All P xs

abbrev pub Elem : {A : Type 0} → A → List A → Type 0
Elem a [] = ⊥
Elem a (x ∷ xs) = (a ≡ x) ⊎ Elem a xs

pub All-append {ℓ κ} :
    {A : Type ℓ} (P : A → Type κ) (xs ys : List A) → All P xs → All P ys → All P (xs ++ ys)
All-append P [] ys hx hy = hy
All-append P (x ∷ xs) ys hx hy = (hx.0, All-append P xs ys hx.1 hy)

pub All_Elem : {A : Type 0} (P : A → Type 0) (xs : List A) (a : A) → All P xs → Elem a xs → P a
All_Elem P [] a h m = absurd m
All_Elem P (x ∷ xs) a h (inl e) = rw e h.0
All_Elem P (x ∷ xs) a h (inr m) = All_Elem P xs a h.1 m

module _ {A : Type 0} (p : A → Bool) where
  pub Elem-keep_if : (a : A) (xs : List A) → Elem a (keep_if p xs) → Elem a xs × (p a ≡ true)
  Elem-keep_if a [] m = absurd m
  Elem-keep_if a (x ∷ xs) m = elim (Bool-cases (p x)) [
    | inl e ↦ first (Elem-keep_if a xs) e (rw e at m)
    | inr e ↦ let (m', k) = Elem-keep_if a xs (rw e at m) in (inr m', k)
  ]
    where
      first :
          (Elem a (keep_if p xs) → Elem a xs × (p a ≡ true))
          → p x ≡ true
          → Elem a (x ∷ keep_if p xs)
          → Elem a (x ∷ xs) × (p a ≡ true)
      first ih e (inl eq) = (inl eq, rw eq e)
      first ih e (inr m) = let (m', k) = ih m in (inr m', k)

  pub Elem-keep_if_of : (a : A) (xs : List A) → Elem a xs → p a ≡ true → Elem a (keep_if p xs)
  Elem-keep_if_of a [] m k = absurd m
  Elem-keep_if_of a (x ∷ xs) (inl e) k = rw (rw e at k) (inl e)
  Elem-keep_if_of a (x ∷ xs) (inr m) k = elim (Bool-cases (p x)) [
    | inl e ↦ rw e (inr (Elem-keep_if_of a xs m k))
    | inr e ↦ rw e (Elem-keep_if_of a xs m k)
  ]

-- The times do not decrease, from `low` on.
abbrev pub Ascending : ℕ → List ℕ → Type 0
Ascending low [] = Unit
Ascending low (t ∷ ts) = (low ≤ t) × Ascending t ts
