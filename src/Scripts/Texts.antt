-- ===== src/Scripts/Texts.antt =====
-- The operations of `str` that the scripts use.
use distributed_rate_limiter.Base.{
  All, List, [], ap, arith, if◌then◌else◌, refl, ℕ, ◌++◌, ◌==◌, ◌∙◌, ◌∷◌, ◌≡◌,
}
use distributed_rate_limiter.Base.Text.{Text, Avoids}
use distributed_rate_limiter.Keys.{is_space}

-- `text.split(separator)`, for one character: the first part, and the others.
unfoldable pub split_on : ℕ → Text → Text × List Text
split_on separator [] = ([], [])
split_on separator (c ∷ s) =
    let (part, parts) = split_on separator s in
    if c == separator then ([], part ∷ parts) else (c ∷ part, parts)

abbrev pub parts_of : Text × List Text → List Text
parts_of (part, parts) = part ∷ parts

abbrev flush : Text → List Text → List Text
flush [] words = words
flush (c ∷ s) words = (c ∷ s) ∷ words

-- `text.split()`, for a text whose first word goes on from `word`.
unfoldable pub words_from : Text → Text → List Text
unfolding is_space
words_from word [] = flush word []
words_from word (c ∷ s) =
    let apart = words_from [] s in
    let longer = words_from (word ++ c ∷ []) s in if is_space c then flush word apart else longer

-- `separator.join(texts)`, for one character.
abbrev pub join : ℕ → List Text → Text
join separator [] = []
join separator (s ∷ []) = s
join separator (s ∷ t ∷ rest) = s ++ separator ∷ join separator (t ∷ rest)

pub split_on-append :
    (c : ℕ) (s t : Text) → Avoids c s → split_on c (s ++ c ∷ t) ≡ (s, parts_of (split_on c t))
unfolding split_on
split_on-append c [] t a = ground arith
split_on-append c (d ∷ s) t (ne, a) =
    let ih = split_on-append c s t a in ground (arith, ih, ap (λ (x : Text × List Text). x.0) ih)

split_on-whole : (c : ℕ) (s : Text) → Avoids c s → split_on c s ≡ (s, [])
unfolding split_on
split_on-whole c [] a = refl
split_on-whole c (d ∷ s) (ne, a) = let ih = split_on-whole c s a in ground (arith, ih)

-- Texts without the separator come back from their joined text.
pub split_on-join :
    (c : ℕ) (s : Text) (rest : List Text)
    → All (Avoids c) (s ∷ rest)
    → parts_of (split_on c (join c (s ∷ rest))) ≡ s ∷ rest
split_on-join c s [] (a, _) = ap parts_of (split_on-whole c s a)
split_on-join c s (t ∷ rest) (a, others) =
    ap parts_of (split_on-append c s (join c (t ∷ rest)) a)
    ∙ ap (λ x. s ∷ x) (split_on-join c t rest others)
