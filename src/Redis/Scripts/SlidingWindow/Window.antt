-- ===== src/Redis/Scripts/SlidingWindow/Window.antt =====
-- The log of a sorted set and that of `apply_sliding_window_log`: what the two have in common, and
-- that the script's writes keep it.
use distributed_rate_limiter.Base.{
  All, All-append, Bool, Bool-cases, List, Option, [], ap, arith, false, head?, inl, inr, keep_if,
  length, length-append, refl, some, subst, sym, ℕ, ◌*◌, ◌++◌, ◌+◌, ◌∙◌, ◌∷◌, ◌≡◌, ◌≢◌, ◌≤◌,
}
use distributed_rate_limiter.Base.Int.{pos, sub_ℕ, ltb_ℤ}
use distributed_rate_limiter.Base.Text.{Text}
use distributed_rate_limiter.Float.{Float}
use distributed_rate_limiter.Algorithms.SlidingWindow.{is_active, oldest_or}
use distributed_rate_limiter.Algorithms.SlidingWindow.Log.{keep_if_twice, is_active_before}
use distributed_rate_limiter.Redis.{Redis, alive}
use distributed_rate_limiter.Redis.SortedSets.{SortedSets, insert_score}
use distributed_rate_limiter.Redis.Scripts.{reset_of}

-- ZREMRANGEBYSCORE up to `now_ms - window_ms` keeps what the algorithm calls active.
kept_active :
    (window_ms now_ms : ℕ) (scores : List ℕ)
    → keep_if (λ s. ltb_ℤ (sub_ℕ now_ms window_ms) (pos s)) scores
      ≡ keep_if (is_active window_ms now_ms) scores
kept_active window_ms now_ms [] = refl
kept_active window_ms now_ms (s ∷ scores) = ground (arith, kept_active window_ms now_ms scores)

-- A score that none exceeds goes to the end.
insert_score-last :
    (score : ℕ) (scores : List ℕ)
    → All (λ s. s ≤ score) scores
    → insert_score score scores ≡ scores ++ score ∷ []
unfolding insert_score
insert_score-last score [] h = refl
insert_score-last score (s ∷ scores) h = ground (arith, insert_score-last score scores h.1)

All-keep_if : (P : ℕ → Type 0) (p : ℕ → Bool) (xs : List ℕ) → All P xs → All P (keep_if p xs)
All-keep_if P p [] h = h
All-keep_if P p (x ∷ xs) h = elim (Bool-cases (p x)) [
  | inl e ↦ rw e (h.0, All-keep_if P p xs h.1)
  | inr e ↦ rw e (All-keep_if P p xs h.1)
]

All-map : (P Q : ℕ → Type 0) → ((x : ℕ) → P x → Q x) → (xs : List ℕ) → All P xs → All Q xs
All-map P Q f [] h = h
All-map P Q f (x ∷ xs) h = (f x h.0, All-map P Q f xs h.1)

-- Nothing is active once the window of each score is over.
none_active :
    (window_ms t d : ℕ) (scores : List ℕ)
    → All (λ s. s + window_ms ≤ d) scores
    → d ≤ t
    → keep_if (is_active window_ms t) scores ≡ []
none_active window_ms t d [] h le = refl
none_active window_ms t d (s ∷ scores) h le =
    let rest = none_active window_ms t d scores h.1 le in let here = h.0 in ground (arith, rest)

dead_quiet :
    (window_ms t : ℕ) (dl : Option ℕ) (scores : List ℕ)
    → alive t dl ≡ false
    → (scores ≢ [] → (d : ℕ) × (dl ≡ some d) × All (λ s. s + window_ms ≤ d) scores)
    → keep_if (is_active window_ms t) scores ≡ []
dead_quiet window_ms t dl [] dead lives = refl
dead_quiet window_ms t dl (s ∷ scores) dead lives =
    let (d, e, all) = lives (λ h. cc) in
    let dead' : alive t (some d) ≡ false = subst (λ o. alive t o ≡ false) e dead in
    none_active window_ms t d (s ∷ scores) all (ground arith)

pub length_snoc : (xs : List ℕ) (x : ℕ) → length (xs ++ x ∷ []) ≡ length xs + 1
length_snoc xs x = length-append xs (x ∷ [])

pub reset_of-oldest_or :
    (now_ms window_ms : ℕ) (xs : List ℕ)
    → reset_of now_ms window_ms (head? xs) ≡ oldest_or now_ms xs + window_ms
reset_of-oldest_or now_ms window_ms [] = refl
reset_of-oldest_or now_ms window_ms (x ∷ xs) = refl

module _ (fl : Float) (r : Redis fl.F) (laws : SortedSets r) (key : Text) (window_seconds : ℕ) where
  abbrev pub W : ℕ
  W = window_seconds * 1000

  -- What the database has in common with the log of `apply_sliding_window_log` from `low` on: the
  -- same active requests, a deadline at which none is active any more, and no request to come.
  pub record Agrees (low : ℕ) (db : r.Db) (log : List ℕ) : Type 0 where
    pub same : keep_if (is_active W low) (laws.scores low key db) ≡ keep_if (is_active W low) log
    pub past : All (λ s. s ≤ low) (laws.scores low key db)
    pub lives :
        laws.scores low key db ≢ []
        → (d : ℕ) × (laws.deadline key db ≡ some d) × All (λ s. s + W ≤ d) (laws.scores low key db)

  -- The request's log after pruning, in both.
  abbrev pub active : ℕ → r.Db → List ℕ
  active t db = keep_if (is_active W t) (laws.scores t key db)

  abbrev pub removed : ℕ → r.Db → r.Db
  removed t db = r.zremrangebyscore t key (sub_ℕ t W) db

  pub removed-scores : (t : ℕ) (db : r.Db) → laws.scores t key (removed t db) ≡ active t db
  removed-scores t db =
      laws.scores-zremrangebyscore t key (sub_ℕ t W) db ∙ kept_active W t (laws.scores t key db)

  -- What was active at `low` is what is active at `t`, whether the key has been removed since.
  pub active_later :
      (low t : ℕ) (db : r.Db) (log : List ℕ)
      → low ≤ t
      → Agrees low db log
      → active t db ≡ keep_if (is_active W t) log
  active_later low t db log le agrees =
      let twice = λ (xs : List ℕ).
        keep_if_twice (is_active W t) (is_active W low) (λ v. is_active_before W low t v le) xs in
      let pruned : keep_if (is_active W t) (laws.scores low key db) ≡ keep_if (is_active W t) log =
        sym (twice (laws.scores low key db))
        ∙ ap (keep_if (is_active W t)) agrees.same
        ∙ twice log in
      elim (Bool-cases (alive t (laws.deadline key db))) [
        | inl e ↦ rw (laws.scores_later low t key db le, e) pruned
        | inr e ↦
            rw (laws.scores_later low t key db le, e)
              (sym (dead_quiet W t (laws.deadline key db) (laws.scores low key db) e agrees.lives)
                ∙ pruned)
      ]

  later_past :
      (low t : ℕ) (db : r.Db) (log : List ℕ)
      → low ≤ t
      → Agrees low db log
      → All (λ s. s ≤ t) (laws.scores t key db)
  later_past low t db log le agrees = elim (Bool-cases (alive t (laws.deadline key db))) [
    | inl e ↦
        rw (laws.scores_later low t key db le, e)
          (All-map (λ s. s ≤ low) (λ s. s ≤ t) (λ s h. omega arith) (laws.scores low key db)
            agrees.past)
    | inr e ↦ rw (laws.scores_later low t key db le, e) tt
  ]

  active_past :
      (low t : ℕ) (db : r.Db) (log : List ℕ)
      → low ≤ t
      → Agrees low db log
      → All (λ s. s ≤ t) (active t db)
  active_past low t db log le agrees =
      All-keep_if (λ s. s ≤ t) (is_active W t) _ (later_past low t db log le agrees)

  -- An admitted request: the database after the script's writes.
  abbrev pub admitted : ℕ → Text → r.Db → r.Db
  admitted t member db = r.pexpire t key (W + 1000) (r.zadd t key t member (removed t db))

  pub admitted-scores :
      (low t : ℕ) (member : Text) (db : r.Db) (log : List ℕ)
      → low ≤ t
      → Agrees low db log
      → ¬ laws.Member member key db
      → laws.scores t key (admitted t member db) ≡ active t db ++ t ∷ []
  admitted-scores low t member db log le agrees new =
      laws.scores-pexpire t (W + 1000) key _ (omega arith)
      ∙ laws.scores-zadd t key t member (removed t db)
          (λ m. new (laws.Member-zremrangebyscore t key _ db member m))
      ∙ ap (insert_score t) (removed-scores t db)
      ∙ insert_score-last t (active t db) (active_past low t db log le agrees)

  -- The deadline after the pruning, where a request is left.
  removed-lives :
      (low t : ℕ) (db : r.Db) (log : List ℕ)
      → low ≤ t
      → Agrees low db log
      → active t db ≢ []
      → (d : ℕ) × (laws.deadline key (removed t db) ≡ some d) × All (λ s. s + W ≤ d) (active t db)
  removed-lives low t db log le agrees some_left =
      elim (Bool-cases (alive t (laws.deadline key db))) [
        | inl e ↦
            let kept : laws.scores t key db ≡ laws.scores low key db =
              rw (laws.scores_later low t key db le, e) refl in
            let (d, ends, all) =
              agrees.lives (λ empty. some_left (ap (keep_if (is_active W t)) (kept ∙ empty))) in
            (
              d,
              laws.deadline-zremrangebyscore t key _ db
                    (λ empty. some_left (sym (removed-scores t db) ∙ empty))
                  ∙ ends,
              All-keep_if (λ s. s + W ≤ d) (is_active W t) _
                  (subst (All (λ s. s + W ≤ d)) (sym kept) all),
            )
        | inr e ↦ absurd (
            some_left (
              ap (keep_if (is_active W t)) (
                let gone : laws.scores t key db ≡ [] =
                  rw (laws.scores_later low t key db le, e) refl in
                gone)))
      ]

  pub admitted-Agrees :
      (low t : ℕ) (member : Text) (db : r.Db) (log : List ℕ)
      → low ≤ t
      → Agrees low db log
      → ¬ laws.Member member key db
      → Agrees t (admitted t member db) (active t db ++ t ∷ [])
  admitted-Agrees low t member db log le agrees new =
      let scores = admitted-scores low t member db log le agrees new in
      let past : All (λ s. s ≤ t) (active t db ++ t ∷ []) =
        All-append (λ s. s ≤ t) (active t db) (t ∷ []) (active_past low t db log le agrees)
          (omega arith, tt) in
      record {
        same = ap (keep_if (is_active W t)) scores;
        past = subst (All (λ s. s ≤ t)) (sym scores) past;
        lives = λ left. (
          t + (W + 1000),
          laws.deadline-pexpire t (W + 1000) key _ (omega arith)
              (λ empty. left (laws.scores-pexpire t (W + 1000) key _ (omega arith) ∙ empty)),
          subst (All (λ s. s + W ≤ t + (W + 1000))) (sym scores)
              (All-map (λ s. s ≤ t) (λ s. s + W ≤ t + (W + 1000)) (λ s h. omega arith) _ past),
        );
      }

  pub removed-Agrees :
      (low t : ℕ) (db : r.Db) (log : List ℕ)
      → low ≤ t
      → Agrees low db log
      → Agrees t (removed t db) (active t db)
  removed-Agrees low t db log le agrees =
      let scores = removed-scores t db in
      record {
        same = ap (keep_if (is_active W t)) scores;
        past = subst (All (λ s. s ≤ t)) (sym scores) (active_past low t db log le agrees);
        lives = λ left.
            let (d, ends, all) =
              removed-lives low t db log le agrees (λ empty. left (scores ∙ empty)) in
            (d, ends, subst (All (λ s. s + W ≤ d)) (sym scores) all);
      }
