-- ===== src/Redis/Scripts/SlidingWindow.antt =====
-- The sliding-window script answers as `apply_sliding_window_log` does, whichever instances call
-- it: the calls of all instances are one sequence.
pub mod Window
use distributed_rate_limiter.Base.{
  All, Bool-cases, List, [], ap, arith, false, head?, inl, inr, keep_if, length, ltb, refl, subst,
  sym, true, ℕ, ◌*◌, ◌++◌, ◌+◌, ◌-◌, ◌∙◌, ◌∷◌, ◌≡◌, ◌≢◌, ◌≤◌, ◌⊎◌,
}
use distributed_rate_limiter.Base.Text.{Text}
use distributed_rate_limiter.Float.{Float}
use distributed_rate_limiter.Algorithms.SlidingWindow.{is_active, apply_sliding_window_log}
use distributed_rate_limiter.Redis.{Redis}
use distributed_rate_limiter.Redis.SortedSets.{SortedSets}
use distributed_rate_limiter.Redis.Scripts.{Reply, sliding_window_lua}
use distributed_rate_limiter.Redis.Scripts.Replies.{reply_of}
use distributed_rate_limiter.Redis.Scripts.SlidingWindow.Window.{length_snoc, reset_of-oldest_or}
use distributed_rate_limiter.Redis.Scripts.SlidingWindow.Window

module _ (fl : Float) (r : Redis fl.F) (laws : SortedSets r) (key : Text)
    (limit window_seconds : ℕ) where
  abbrev W : ℕ
  W = window_seconds * 1000

  abbrev Agrees : ℕ → r.Db → List ℕ → Type 0
  Agrees = Window.Agrees fl r laws key window_seconds

  abbrev active : ℕ → r.Db → List ℕ
  active = Window.active fl r laws key window_seconds

  abbrev removed : ℕ → r.Db → r.Db
  removed = Window.removed fl r laws key window_seconds

  abbrev admitted : ℕ → Text → r.Db → r.Db
  admitted = Window.admitted fl r laws key window_seconds

  -- A request on both sides: the same answer, and what the two states have in common after it.
  abbrev InStep : ℕ → Text → r.Db → List ℕ → Type 0
  InStep t member db log =
      let (reply, db') = sliding_window_lua fl r t key limit W member db in
      let (log', c) = apply_sliding_window_log fl t log limit window_seconds in
      (reply ≡ reply_of limit c)
      × Agrees t db' log'
      × ((m : Text) → laws.Member m key db' → (m ≡ member) ⊎ laws.Member m key db)

  keep_removed :
      (t : ℕ) (m member : Text) (db : r.Db)
      → (m ≡ member) ⊎ laws.Member m key (removed t db)
      → (m ≡ member) ⊎ laws.Member m key db
  keep_removed t m member db (inl e) = inl e
  keep_removed t m member db (inr held) = inr (laws.Member-zremrangebyscore t key _ db m held)

  step_admitted :
      (low t : ℕ) (member : Text) (db : r.Db) (log : List ℕ)
      → low ≤ t
      → Agrees low db log
      → ¬ laws.Member member key db
      → ltb (length (active t db)) limit ≡ true
      → InStep t member db log
  unfolding sliding_window_lua apply_sliding_window_log
  step_admitted low t member db log le agrees new ok =
      let same = Window.active_later fl r laws key window_seconds low t db log le agrees in
      let count : r.zcard t key (removed t db) ≡ length (active t db) =
        laws.zcard_lem t key (removed t db)
        ∙ ap length (Window.removed-scores fl r laws key window_seconds t db) in
      let scores =
        Window.admitted-scores fl r laws key window_seconds low t member db log le agrees new in
      let first : r.zrange_first t key (admitted t member db) ≡ head? (active t db ++ t ∷ []) =
        laws.zrange_first_lem t key _ ∙ ap head? scores in
      rw (count, ok, first, ← same, ok)
        (
          rw (reset_of-oldest_or t W (active t db ++ t ∷ []), length_snoc (active t db) t) refl,
          Window.admitted-Agrees fl r laws key window_seconds low t member db log le agrees new,
          λ m held. keep_removed t m member db (
              laws.Member-zadd t key t member (removed t db) m
                (laws.Member-pexpire t (W + 1000) key _ m held)),
        )

  step_refused :
      (low t : ℕ) (member : Text) (db : r.Db) (log : List ℕ)
      → low ≤ t
      → Agrees low db log
      → ltb (length (active t db)) limit ≡ false
      → InStep t member db log
  unfolding sliding_window_lua apply_sliding_window_log
  step_refused low t member db log le agrees full =
      let same = Window.active_later fl r laws key window_seconds low t db log le agrees in
      let count : r.zcard t key (removed t db) ≡ length (active t db) =
        laws.zcard_lem t key (removed t db)
        ∙ ap length (Window.removed-scores fl r laws key window_seconds t db) in
      let first : r.zrange_first t key (removed t db) ≡ head? (active t db) =
        laws.zrange_first_lem t key _
        ∙ ap head? (Window.removed-scores fl r laws key window_seconds t db) in
      let none_left : limit - length (active t db) ≡ 0 = ground arith in
      rw (count, full, first, ← same, full)
        (
          rw (reset_of-oldest_or t W (active t db), none_left) refl,
          Window.removed-Agrees fl r laws key window_seconds low t db log le agrees,
          λ m held. inr (laws.Member-zremrangebyscore t key _ db m held),
        )

  step-InStep :
      (low t : ℕ) (member : Text) (db : r.Db) (log : List ℕ)
      → low ≤ t
      → Agrees low db log
      → ¬ laws.Member member key db
      → InStep t member db log
  step-InStep low t member db log le agrees new =
      elim (Bool-cases (ltb (length (active t db)) limit)) [
        | inl ok ↦ step_admitted low t member db log le agrees new ok
        | inr full ↦ step_refused low t member db log le agrees full
      ]

  -- Requests, each with its time and its member: the answers of the script, and of
  -- `apply_sliding_window_log` at the same times.
  unfoldable pub script_replies : r.Db → List (ℕ × Text) → List Reply
  script_replies db [] = []
  script_replies db ((t, member) ∷ requests) =
      let (reply, db') = sliding_window_lua fl r t key limit (window_seconds * 1000) member db in
      reply ∷ script_replies db' requests

  unfoldable pub algorithm_replies : List ℕ → List (ℕ × Text) → List Reply
  algorithm_replies log [] = []
  algorithm_replies log ((t, member) ∷ requests) =
      let (log', c) = apply_sliding_window_log fl t log limit window_seconds in
      reply_of limit c ∷ algorithm_replies log' requests

  -- The times do not decrease, and no member comes twice or is in the database.
  unfoldable pub Fresh : ℕ → r.Db → List (ℕ × Text) → Type 0
  Fresh low db [] = Unit
  Fresh low db ((t, member) ∷ requests) =
      (low ≤ t)
      × (¬ laws.Member member key db)
      × All (λ q. q.1 ≢ member) requests
      × Fresh t db requests

  Fresh-after :
      (low : ℕ) (member : Text) (db db' : r.Db) (requests : List (ℕ × Text))
      → ((m : Text) → laws.Member m key db' → (m ≡ member) ⊎ laws.Member m key db)
      → All (λ q. q.1 ≢ member) requests
      → Fresh low db requests
      → Fresh low db' requests
  unfolding Fresh
  Fresh-after low member db db' [] from others fresh = tt
  Fresh-after low member db db' ((t, m) ∷ requests) from others (le, new, distinct, rest) = (
    le,
    λ held. elim (from m held) [ inl e ↦ others.0 e | inr old ↦ new old ],
    distinct,
    Fresh-after t member db db' requests from others.1 rest,
  )

  run-Agrees :
      (low : ℕ) (db : r.Db) (log : List ℕ) (requests : List (ℕ × Text))
      → Fresh low db requests
      → Agrees low db log
      → script_replies db requests ≡ algorithm_replies log requests
  unfolding script_replies algorithm_replies Fresh
  run-Agrees low db log [] fresh agrees = refl
  run-Agrees low db log ((t, member) ∷ requests) (le, new, distinct, later) agrees =
      let (now_same, agrees', from) = step-InStep low t member db log le agrees new in
      let db' = (sliding_window_lua fl r t key limit W member db).1 in
      let log' = (apply_sliding_window_log fl t log limit window_seconds).0 in
      let fresh' = Fresh-after t member db db' requests from distinct later in
      let rest = run-Agrees t db' log' requests fresh' agrees' in λ i. now_same i ∷ rest i

  -- Where the key's set is empty at first, the server's clock does not go back, and no member comes
  -- twice or was in the set, the script answers each request of any sequence as
  -- `apply_sliding_window_log` does: with the same decision, the same remaining quota, and the same
  -- reset and retry times. That Redis removes the key some time after its last request changes no
  -- answer.
  pub sliding_window_lua_refines :
      (low : ℕ) (db : r.Db) (requests : List (ℕ × Text))
      → Fresh low db requests
      → laws.scores low key db ≡ []
      → script_replies db requests ≡ algorithm_replies [] requests
  sliding_window_lua_refines low db requests fresh empty =
      run-Agrees low db [] requests fresh (record {
        same = ap (keep_if (is_active W low)) empty;
        past = subst (All (λ s. s ≤ low)) (sym empty) tt;
        lives = λ left. absurd (left empty);
      })
