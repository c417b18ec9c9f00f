-- ===== src/Api/Tokens.antt =====
-- Which requests the token checks let through.
use distributed_rate_limiter.Base.{
  Bool-cases, Option, ap, inl, inr, none, refl, some, true, ◌↔◌, ◌≡◌,
}
use distributed_rate_limiter.Base.Text.{Text, text_eq, text_eq_sound, eq_text_eq}
use distributed_rate_limiter.Api.{require_token, is_ascii}

-- A request passes the token check exactly if it carries the expected token, and this is ASCII.
pub require_token_iff :
    (provided : Option Text) (expected detail : Text)
    → (require_token provided expected detail ≡ none)
      ↔ ((provided ≡ some expected) × (is_ascii expected ≡ true))
unfolding require_token
require_token_iff none expected detail = (λ e. cc, λ e. absurd (let no = e.0 in cc))
require_token_iff (some provided) expected detail = elim (Bool-cases (is_ascii provided)) [
  | inr wide ↦ (
    λ h. absurd (let raised = rw wide at h in cc),
    λ e. absurd (
        let same : provided ≡ expected = let is = e.0 in cc in
        let plain = e.1 in let plain' = ap is_ascii same in cc),
  )
  | inl plain ↦ elim (Bool-cases (is_ascii expected)) [
    | inr wide ↦ (
      λ h. absurd (let raised = rw (plain, wide) at h in cc),
      λ e. absurd (let other = e.1 in cc),
    )
    | inl fine ↦ elim (Bool-cases (text_eq provided expected)) [
      | inl e ↦ (
        λ h. (ap (λ t. some t) (text_eq_sound provided expected e), fine),
        λ h. rw (plain, fine, e) refl,
      )
      | inr e ↦ (
        λ h. absurd (let raised = rw (plain, fine, e) at h in cc),
        λ h. absurd (let same = eq_text_eq provided expected (let is = h.0 in cc) in cc),
      )
    ]
  ]
]
