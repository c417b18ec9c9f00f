-- ===== src/Policy/Matcher/Best.antt =====
-- `select_best_policy` returns a candidate of maximal score.
use distributed_rate_limiter.Base.{
  ◌≡◌, refl, sym, subst, true, false, Option, none, some, List, [], ◌∷◌, arith, inl, inr, All, Elem,
  keep_if, All_Elem, Elem-keep_if, Elem-keep_if_of, Bool-cases,
}
use distributed_rate_limiter.Keys.{RequestIdentity}
use distributed_rate_limiter.Policy.{Policy}
use distributed_rate_limiter.Policy.Matcher.{
  Score, score_lt, policy_score, max_by_score, is_candidate, best_of, select_best_policy,
}

-- `a` is not below `b` in the order of the score tuples.
abbrev pub AtLeast : Policy → Policy → Type 0
AtLeast a b = score_lt (policy_score a) (policy_score b) ≡ false

score_lt_irrefl : (a : Score) → score_lt a a ≡ false
unfolding score_lt
score_lt_irrefl a = ground arith

score_lt_asymm : (a b : Score) → score_lt a b ≡ true → score_lt b a ≡ false
unfolding score_lt
score_lt_asymm a b h = ground arith

-- "Not below" is transitive.
score_le_trans :
    (a b c : Score) → score_lt a b ≡ false → score_lt b c ≡ false → score_lt a c ≡ false
unfolding score_lt
score_le_trans a b c h k = ground arith

Elem-skip : {p q : Policy} (r : Policy) (l : List Policy) → Elem q (p ∷ l) → Elem q (p ∷ r ∷ l)
Elem-skip r l (inl e) = inl e
Elem-skip r l (inr m) = inr (inr m)

-- `m` is one of the policies, and none of them is above it.
abbrev IsMax : Policy → Policy → List Policy → Type 0
IsMax m best rest = Elem m (best ∷ rest) × AtLeast m best × All (AtLeast m) rest

max_by_score-better :
    (best p : Policy) (rest : List Policy)
    → score_lt (policy_score best) (policy_score p) ≡ true
    → max_by_score best (p ∷ rest) ≡ max_by_score p rest
unfolding max_by_score
max_by_score-better best p rest h = rw h

max_by_score-worse :
    (best p : Policy) (rest : List Policy)
    → score_lt (policy_score best) (policy_score p) ≡ false
    → max_by_score best (p ∷ rest) ≡ max_by_score best rest
unfolding max_by_score
max_by_score-worse best p rest h = rw h

max_by_score-nil : (best : Policy) → max_by_score best [] ≡ best
unfolding max_by_score
max_by_score-nil best = refl

max_by_score-IsMax : (best : Policy) (rest : List Policy) → IsMax (max_by_score best rest) best rest
max_by_score-IsMax best [] = rw max_by_score-nil (inl refl, score_lt_irrefl _, tt)
max_by_score-IsMax best (p ∷ rest) =
    elim (Bool-cases (score_lt (policy_score best) (policy_score p))) [
      | inl better ↦
          let (mem, ge, all) = max_by_score-IsMax p rest in
          subst (λ m. IsMax m best (p ∷ rest)) (sym (max_by_score-better best p rest better))
            (inr mem, score_le_trans _ _ _ ge (score_lt_asymm _ _ better), (ge, all))
      | inr worse ↦
          let (mem, ge, all) = max_by_score-IsMax best rest in
          subst (λ m. IsMax m best (p ∷ rest)) (sym (max_by_score-worse best p rest worse))
            (Elem-skip p rest mem, ge, (score_le_trans _ _ _ ge worse, all))
    ]

-- What the selection promises: nothing is returned only if there is no candidate; what is returned
-- is a candidate of the list that no other candidate is above.
abbrev pub Selected : List Policy → RequestIdentity → Option Policy → Type 0
Selected policies i none = (q : Policy) → Elem q policies → is_candidate i q ≡ true → ⊥
Selected policies i (some best) =
    Elem best policies
    × (is_candidate i best ≡ true)
    × ((q : Policy) → Elem q policies → is_candidate i q ≡ true → AtLeast best q)

best_of-Selected :
    (i : RequestIdentity) (policies : List Policy) (l : List Policy)
    → keep_if (is_candidate i) policies ≡ l
    → Selected policies i (best_of l)
unfolding best_of
best_of-Selected i policies [] e =
    λ q m k. (rw e at (Elem-keep_if_of (is_candidate i) q policies m k))
best_of-Selected i policies (p ∷ rest) e =
    let (mem, ge, all) = max_by_score-IsMax p rest in
    let (found, ok) = Elem-keep_if (is_candidate i) (max_by_score p rest) policies (rw e mem) in
    (
      found,
      ok,
      λ q m k.
          All_Elem (AtLeast (max_by_score p rest)) (p ∷ rest) q (ge, all)
            (rw e at (Elem-keep_if_of (is_candidate i) q policies m k)),
    )

-- The policy that is selected is an active, matching policy of the list, and no active, matching
-- policy of the list has a higher score; none is selected only if none is active and matches.
pub select_best_policy-Selected :
    (policies : List Policy) (i : RequestIdentity)
    → Selected policies i (select_best_policy policies i)
unfolding select_best_policy
select_best_policy-Selected policies i =
    best_of-Selected i policies (keep_if (is_candidate i) policies) refl
