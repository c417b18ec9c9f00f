-- ===== src/Keys/Distinct.antt =====
-- Keys of different policies, and of different versions of one policy, are different.
use distributed_rate_limiter.Base.{
  ◌≡◌, refl, ap, sym, ◌∙◌, ℕ, List, [], ◌∷◌, ◌++◌, append_assoc, arith,
}
use distributed_rate_limiter.Base.Text.{
  Text, codes, decimal, decimal-injective, decimal-Avoids_colon, Avoids, split_unique,
}
use distributed_rate_limiter.Policy.{
  Policy, RateLimitAlgorithm, fixed_window, sliding_window_log, token_bucket, algorithm_text,
}
use distributed_rate_limiter.Keys.{RequestIdentity, join_colon, build_rate_limit_key}

-- What follows the first segment and its separator, when a separator is put at the end.
rest_text : List Text → Text
rest_text [] = []
rest_text (s ∷ rest) = join_colon (s ∷ rest) ++ b':' ∷ []

join_colon-end :
    (s : Text) (rest : List Text) → join_colon (s ∷ rest) ++ b':' ∷ [] ≡ s ++ b':' ∷ rest_text rest
unfolding rest_text
join_colon-end s [] = refl
join_colon-end s (t ∷ rest) = append_assoc s (b':' ∷ join_colon (t ∷ rest)) (b':' ∷ [])

-- Joined lists agree on a first segment without separator, and on what follows it.
join_colon-uncons :
    (s t : Text) (xs ys : List Text)
    → Avoids b':' s
    → Avoids b':' t
    → join_colon (s ∷ xs) ≡ join_colon (t ∷ ys)
    → (s ≡ t) × (rest_text xs ≡ rest_text ys)
join_colon-uncons s t xs ys a b e =
    split_unique b':' s t (rest_text xs) (rest_text ys) a b
      (sym (join_colon-end s xs) ∙ ap (λ u. u ++ b':' ∷ []) e ∙ join_colon-end t ys)

rest_text-uncons :
    (s t : Text) (xs ys : List Text)
    → Avoids b':' s
    → Avoids b':' t
    → rest_text (s ∷ xs) ≡ rest_text (t ∷ ys)
    → (s ≡ t) × (rest_text xs ≡ rest_text ys)
unfolding rest_text
rest_text-uncons s t xs ys a b e =
    split_unique b':' s t (rest_text xs) (rest_text ys) a b
      (sym (join_colon-end s xs) ∙ e ∙ join_colon-end t ys)

algorithm_text-Avoids : (a : RateLimitAlgorithm) → Avoids b':' (algorithm_text a)
unfolding algorithm_text
algorithm_text-Avoids fixed_window = omega arith
algorithm_text-Avoids sliding_window_log = omega arith
algorithm_text-Avoids token_bucket = omega arith

version-Avoids : (n : ℕ) → Avoids b':' (b'v' ∷ decimal n)
version-Avoids n = (λ e. omega arith, decimal-Avoids_colon n)

-- If two keys are equal, they are keys of the same policy at the same version, whatever the
-- requests are, where the identifiers contain no colon.
pub build_rate_limit_key_distinct :
    (p q : Policy) (i j : RequestIdentity)
    → Avoids b':' p.id
    → Avoids b':' q.id
    → build_rate_limit_key p i ≡ build_rate_limit_key q j
    → (p.id ≡ q.id) × (p.version ≡ q.version)
unfolding build_rate_limit_key
build_rate_limit_key_distinct p q i j ap aq e =
    let (_, e1) = join_colon-uncons (codes "rl") (codes "rl") _ _ (omega arith) (omega arith) e in
    let (_, e2) =
      rest_text-uncons (algorithm_text p.algorithm) (algorithm_text q.algorithm) _ _
        (algorithm_text-Avoids p.algorithm) (algorithm_text-Avoids q.algorithm) e1 in
    let (same_id, e3) = rest_text-uncons p.id q.id _ _ ap aq e2 in
    let (same_version, _) =
      rest_text-uncons (b'v' ∷ decimal p.version) (b'v' ∷ decimal q.version) _ _
        (version-Avoids p.version) (version-Avoids q.version) e3 in
    (same_id, decimal-injective p.version q.version (cc))
