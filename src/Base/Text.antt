-- ===== src/Base/Text.antt =====
-- Python's `str` as the list of its code points: literals, equality, and `str` of a natural number.
use distributed_rate_limiter.Base.{
  Bool, Bool-cases, List, Option, [], ap, arith, false, if◌then◌else◌, inl, inr, ltb, ltb→lt, none,
  refl, some, suc, sym, true, zero, ℕ, ◌%◌, ◌&&◌, ◌*◌, ◌++◌, ◌+◌, ◌-◌, ◌/◌, ◌<◌, ◌==◌, ◌↔◌, ◌∙◌,
  ◌∷◌, ◌≡◌, ◌≢◌,
}
use Prim.Native.Nat.{ℕ, zero, suc, ◌+◌, ◌-◌, ◌/◌, ◌%◌, ◌<◌, ◌*◌}
use Prim.Native.Char.{code}
use Prim.Native.String.{String}
use mathlib.Core.Path.{◌≡◌, refl, ap, sym, ◌∙◌}
use mathlib.Core.Logic.{◌↔◌, ◌≢◌, inl, inr}
use mathlib.Core.Bool.{Bool, true, false, ◌&&◌}
use mathlib.Core.Option.{Option, none, some}
use mathlib.Core.List.{List, [], ◌∷◌, ◌++◌}
use native.Mathlib.Omega.{arith}
use distributed_rate_limiter.Base.Tests.{ltb, ◌==◌, if◌then◌else◌, ltb→lt, tests, Bool-cases}

abbrev pub Text : Type 0
Text = List ℕ

-- A literal of the source.
abbrev pub codes : String → Text
codes String.[] = []
codes (String.◌∷◌ c s) = code c ∷ codes s

unfoldable pub text_eq : Text → Text → Bool
text_eq [] [] = true
text_eq (c ∷ s) (d ∷ t) = c == d && text_eq s t
text_eq _ _ = false

pub text_eq_refl : (s : Text) → text_eq s s ≡ true
unfolding text_eq
text_eq_refl [] = refl
text_eq_refl (c ∷ s) = ground (arith, text_eq_refl s)

pub text_eq_sound : (s t : Text) → text_eq s t ≡ true → s ≡ t
unfolding text_eq
text_eq_sound [] [] h = refl
text_eq_sound [] (d ∷ t) h = ground arith
text_eq_sound (c ∷ s) [] h = ground arith
text_eq_sound (c ∷ s) (d ∷ t) h = ground (arith, text_eq_sound s t)

pub eq_text_eq : (s t : Text) → s ≡ t → text_eq s t ≡ true
eq_text_eq s t e = rw e (text_eq_refl t)

pub text_eq_iff : (s t : Text) → (text_eq s t ≡ true) ↔ (s ≡ t)
text_eq_iff s t = (text_eq_sound s t, eq_text_eq s t)

-- `value is not None`, and `a == b` on `str | None`.
abbrev pub is_some {ℓ} : {A : Type ℓ} → Option A → Bool
is_some none = false
is_some (some a) = true

unfoldable pub option_text_eq : Option Text → Option Text → Bool
unfolding text_eq
option_text_eq none none = true
option_text_eq (some s) (some t) = text_eq s t
option_text_eq _ _ = false

pub option_text_eq_sound : (a b : Option Text) → option_text_eq a b ≡ true → a ≡ b
unfolding option_text_eq
option_text_eq_sound none none h = refl
option_text_eq_sound none (some t) h = cc
option_text_eq_sound (some s) none h = cc
option_text_eq_sound (some s) (some t) h = ap some (text_eq_sound s t h)

pub option_text_eq_refl : (a : Option Text) → option_text_eq a a ≡ true
unfolding option_text_eq
option_text_eq_refl none = refl
option_text_eq_refl (some s) = text_eq_refl s

abbrev pub is_empty_text : Text → Bool
is_empty_text [] = true
is_empty_text (c ∷ s) = false

-- The decimal digits of `n`, with more rounds than `n` has digits.
digits : ℕ → ℕ → Text
digits zero n = []
digits (suc f) n =
    let longer = digits f (n / 10) ++ (48 + n % 10) ∷ [] in
    if ltb n 10 then (48 + n) ∷ [] else longer

-- `str(n)` for a natural number.
unfoldable pub decimal : ℕ → Text
unfolding digits
decimal n = digits (suc n) n

-- `int(text)` for the digits of a natural number, after a number that was read.
unfoldable pub parse_digits : ℕ → Text → ℕ
parse_digits acc [] = acc
parse_digits acc (c ∷ s) = parse_digits (acc * 10 + (c - 48)) s

parse_digits-append :
    (acc : ℕ) (s t : Text) → parse_digits acc (s ++ t) ≡ parse_digits (parse_digits acc s) t
unfolding parse_digits
parse_digits-append acc [] t = refl
parse_digits-append acc (c ∷ s) t = parse_digits-append (acc * 10 + (c - 48)) s t

parse_digits-digits : (f n : ℕ) → n < f → parse_digits 0 (digits f n) ≡ n
unfolding digits
parse_digits-digits zero n h = absurd (omega arith)
parse_digits-digits (suc f) n h = elim (Bool-cases (ltb n 10)) [
  | inl e ↦ rw e (unfold parse_digits in omega arith)
  | inr e ↦
      let small : n / 10 < f = omega tests in
      rw e (
        rw parse_digits-append
          (rw (parse_digits-digits f (n / 10) small) (unfold parse_digits in omega arith)))
]

pub parse_digits-decimal : (n : ℕ) → parse_digits 0 (decimal n) ≡ n
unfolding decimal
parse_digits-decimal n = parse_digits-digits (suc n) n (omega arith)

pub decimal-injective : (m n : ℕ) → decimal m ≡ decimal n → m ≡ n
decimal-injective m n e =
    sym (parse_digits-decimal m) ∙ ap (parse_digits 0) e ∙ parse_digits-decimal n

-- No character of the text is `c`.
abbrev pub Avoids : ℕ → Text → Type 0
Avoids c [] = Unit
Avoids c (d ∷ s) = (d ≢ c) × Avoids c s

pub Avoids-append : (c : ℕ) (s t : Text) → Avoids c s → Avoids c t → Avoids c (s ++ t)
Avoids-append c [] t hs ht = ht
Avoids-append c (d ∷ s) t hs ht = (hs.0, Avoids-append c s t hs.1 ht)

module _ (c : ℕ) (other : (k : ℕ) → k < 10 → 48 + k ≢ c) where
  digits-Avoids : (f n : ℕ) → Avoids c (digits f n)
  unfolding digits
  digits-Avoids zero n = tt
  digits-Avoids (suc f) n = elim (Bool-cases (ltb n 10)) [
    | inl e ↦ rw e (other n (ltb→lt _ _ e), tt)
    | inr e ↦ rw e (
        Avoids-append c (digits f (n / 10)) ((48 + n % 10) ∷ []) (digits-Avoids f (n / 10))
          (other (n % 10) (omega arith), tt))
  ]

  -- No digit is `c`.
  pub decimal-Avoids : (n : ℕ) → Avoids c (decimal n)
  unfolding decimal
  decimal-Avoids n = digits-Avoids (suc n) n

pub decimal-Avoids_colon : (n : ℕ) → Avoids b':' (decimal n)
decimal-Avoids_colon = decimal-Avoids b':' (λ k lt e. omega arith)

-- Two texts that agree up to a separator which neither head contains have the same heads.
pub split_unique :
    (c : ℕ) (s s' t t' : Text)
    → Avoids c s
    → Avoids c s'
    → s ++ c ∷ t ≡ s' ++ c ∷ t'
    → (s ≡ s') × (t ≡ t')
split_unique c [] [] t t' a a' e = (refl, cc)
split_unique c [] (d ∷ s') t t' a a' e = absurd (a'.0 (cc))
split_unique c (d ∷ s) [] t t' a a' e = absurd (a.0 (cc))
split_unique c (d ∷ s) (d' ∷ s') t t' a a' e =
    let rest = split_unique c s s' t t' a.1 a'.1 (cc) in (cc, rest.1)
