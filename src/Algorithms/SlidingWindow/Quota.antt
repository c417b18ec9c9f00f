-- ===== src/Algorithms/SlidingWindow/Quota.antt =====
-- No interval of one window's length holds more admitted requests than the limit.
use distributed_rate_limiter.Base.{
  All, Ascending, Bool, Bool-cases, List, [], append-nil, append_assoc, arith, count_if,
  if◌then◌else◌, inl, inr, ltb, ltb→lt, ℕ, ◌*◌, ◌++◌, ◌+◌, ◌<◌, ◌∷◌, ◌≡◌, ◌≤◌,
}
use distributed_rate_limiter.Float.{Float}
use distributed_rate_limiter.Algorithms.SlidingWindow.{is_active, run_sliding_window}
use distributed_rate_limiter.Algorithms.SlidingWindow.Log.{admit_by_history, sliding_window_exact}

-- The times of the admitted requests.
abbrev pub admitted : List (ℕ × Bool) → List ℕ
admitted [] = []
admitted ((t, ok) ∷ ds) = if ok then t ∷ admitted ds else admitted ds

count_if-append :
    (p : ℕ → Bool) (xs ys : List ℕ) → count_if p (xs ++ ys) ≡ count_if p xs + count_if p ys
count_if-append p [] ys = omega arith
count_if-append p (x ∷ xs) ys = ground (arith, count_if-append p xs ys)

-- As time goes on, active requests only become fewer.
count_active_falls :
    (W s t : ℕ) (xs : List ℕ) → s ≤ t → count_if (is_active W t) xs ≤ count_if (is_active W s) xs
count_active_falls W s t [] le = omega arith
count_active_falls W s t (x ∷ xs) le = ground (arith, count_active_falls W s t xs le)

count_one : (W t u : ℕ) → count_if (is_active W u) (t ∷ []) ≤ 1
count_one W t u = ground arith

module _ (limit W : ℕ) where
  -- At no time from `low` on are more than `limit` requests of the history active.
  abbrev Within : ℕ → List ℕ → Type 0
  Within low history = (u : ℕ) → low ≤ u → count_if (is_active W u) history ≤ limit

  Within-admit :
      (t : ℕ) (history : List ℕ)
      → count_if (is_active W t) history < limit
      → Within t (history ++ t ∷ [])
  Within-admit t history room u le =
      rw count_if-append (omega (arith, count_active_falls W t u history le, count_one W t u))

  Within-later : (s t : ℕ) (history : List ℕ) → s ≤ t → Within s history → Within t history
  Within-later s t history le h u le' = h u (omega arith)

  history-Within :
      (low end : ℕ) (history ts : List ℕ)
      → Within low history
      → Ascending low ts
      → low ≤ end
      → All (λ t. t ≤ end) ts
      → count_if (is_active W end) (history ++ admitted (admit_by_history limit W history ts))
        ≤ limit
  unfolding admit_by_history
  history-Within low end history [] h asc le all = rw append-nil (h end le)
  history-Within low end history (t ∷ ts) h asc le all =
      elim (Bool-cases (ltb (count_if (is_active W t) history) limit)) [
        | inl ok ↦
            rw (ok, ← append_assoc history (t ∷ []))
              (history-Within t end (history ++ t ∷ []) ts (Within-admit t history (ltb→lt _ _ ok))
                asc.1 all.0 all.1)
        | inr full ↦
            rw full (
              history-Within t end history ts (Within-later low t history asc.0 h) asc.1 all.0
                all.1)
      ]

-- Whenever one looks at or after the last request, at most `limit` of the admitted requests lie
-- within the last window, if the clock does not go back.
pub sliding_window_le_limit :
    (fl : Float) (limit window_seconds low end : ℕ) (ts : List ℕ)
    → Ascending low ts
    → low ≤ end
    → All (λ t. t ≤ end) ts
    → count_if
        (is_active (window_seconds * 1000) end)
        (admitted (run_sliding_window fl limit window_seconds [] ts))
      ≤ limit
sliding_window_le_limit fl limit window_seconds low end ts asc le all =
    rw (sliding_window_exact fl limit window_seconds low ts asc)
      (history-Within limit (window_seconds * 1000) low end [] ts (λ u h. omega arith) asc le all)
