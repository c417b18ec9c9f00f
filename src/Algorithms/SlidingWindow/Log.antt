-- ===== src/Algorithms/SlidingWindow/Log.antt =====
-- The pruned log decides as the log of all admitted requests would.
use distributed_rate_limiter.Base.{
  Ascending, Bool, List, [], ap, append-nil, arith, count_if, false, if◌then◌else◌, keep_if, length,
  ltb, refl, true, ℕ, ◌*◌, ◌++◌, ◌∙◌, ◌∷◌, ◌≡◌, ◌≤◌,
}
use distributed_rate_limiter.Algorithms.SlidingWindow.{
  is_active, Float, apply_sliding_window_log, run_sliding_window,
}

-- The rule without pruning: a request is admitted exactly if fewer than `limit` of all requests
-- admitted before lie within the last window.
unfoldable pub admit_by_history : ℕ → ℕ → List ℕ → List ℕ → List (ℕ × Bool)
admit_by_history limit window_ms history [] = []
admit_by_history limit window_ms history (t ∷ ts) =
    let ok = ltb (count_if (is_active window_ms t) history) limit in
    (t, ok) ∷ admit_by_history limit window_ms (if ok then history ++ t ∷ [] else history) ts

module _ {A : Type 0} where
  length-keep_if : (p : A → Bool) (xs : List A) → length (keep_if p xs) ≡ count_if p xs
  length-keep_if p [] = refl
  length-keep_if p (x ∷ xs) = ground (arith, length-keep_if p xs)

  keep_if-append :
      (p : A → Bool) (xs ys : List A) → keep_if p (xs ++ ys) ≡ keep_if p xs ++ keep_if p ys
  keep_if-append p [] ys = refl
  keep_if-append p (x ∷ xs) ys = ground (arith, keep_if-append p xs ys)

  -- Pruning by a weaker test first changes nothing.
  pub keep_if_twice :
      (p q : A → Bool)
      → ((x : A) → p x ≡ true → q x ≡ true)
      → (xs : List A) → keep_if p (keep_if q xs) ≡ keep_if p xs
  keep_if_twice p q weaker [] = refl
  keep_if_twice p q weaker (x ∷ xs) = ground (arith, weaker x, keep_if_twice p q weaker xs)

-- What was active later was active before.
pub is_active_before : (W s t v : ℕ) → s ≤ t → is_active W t v ≡ true → is_active W s v ≡ true
is_active_before W s t v le h = ground arith

-- From `low` on, the pruned log and the history have the same active requests.
abbrev SameActive : ℕ → ℕ → List ℕ → List ℕ → Type 0
SameActive W low log history =
    (t : ℕ) → low ≤ t → keep_if (is_active W t) log ≡ keep_if (is_active W t) history

keep_active :
    (W t : ℕ) (log history added : List ℕ)
    → keep_if (is_active W t) log ≡ keep_if (is_active W t) history
    → SameActive W t (keep_if (is_active W t) log ++ added) (history ++ added)
keep_active W t log history added e u le =
    rw
      (
        e,
        keep_if-append (is_active W u) (keep_if (is_active W t) history) added,
        keep_if-append (is_active W u) history added,
      )
      (ap (λ xs. xs ++ keep_if (is_active W u) added)
        (keep_if_twice (is_active W u) (is_active W t) (λ v. is_active_before W t u v le) history))

module _ (fl : Float) (limit window_seconds : ℕ) where
  apply_lem :
      (t : ℕ) (log history : List ℕ)
      → keep_if (is_active (window_seconds * 1000) t) log
        ≡ keep_if (is_active (window_seconds * 1000) t) history
      → let W = window_seconds * 1000 in
        let ok = ltb (count_if (is_active W t) history) limit in
        let (log', c) = apply_sliding_window_log fl t log limit window_seconds in
        (c.allowed ≡ ok)
        × (log'
            ≡ (if ok then keep_if (is_active W t) log ++ t ∷ [] else keep_if (is_active W t) log))
  unfolding apply_sliding_window_log
  apply_lem t log history e =
      let W = window_seconds * 1000 in
      let n : length (keep_if (is_active W t) log) ≡ count_if (is_active W t) history =
        ap length e ∙ length-keep_if (is_active W t) history in
      (rw n refl, rw n refl)

  next-SameActive :
      (t : ℕ) (log history : List ℕ) (ok : Bool)
      → keep_if (is_active (window_seconds * 1000) t) log
        ≡ keep_if (is_active (window_seconds * 1000) t) history
      → let W = window_seconds * 1000 in
        SameActive W t
          (if ok then keep_if (is_active W t) log ++ t ∷ [] else keep_if (is_active W t) log)
          (if ok then history ++ t ∷ [] else history)
  next-SameActive t log history true e u le =
      keep_active (window_seconds * 1000) t log history (t ∷ []) e u le
  next-SameActive t log history false e u le =
      rw (← append-nil (keep_if (is_active (window_seconds * 1000) t) log), ← append-nil history)
        (keep_active (window_seconds * 1000) t log history [] e u le)

  run-SameActive :
      (low : ℕ) (log history ts : List ℕ)
      → SameActive (window_seconds * 1000) low log history
      → Ascending low ts
      → run_sliding_window fl limit window_seconds log ts
        ≡ admit_by_history limit (window_seconds * 1000) history ts
  unfolding run_sliding_window admit_by_history
  run-SameActive low log history [] same asc = refl
  run-SameActive low log history (t ∷ ts) same asc =
      let e = same t asc.0 in
      let (decided, logged) = apply_lem t log history e in
      let ok = ltb (count_if (is_active (window_seconds * 1000) t) history) limit in
      let log' = (apply_sliding_window_log fl t log limit window_seconds).0 in
      let rest =
        run-SameActive t log' (if ok then history ++ t ∷ [] else history) ts
          (rw logged (next-SameActive t log history ok e)) asc.1 in
      λ i. (t, decided i) ∷ rest i

  -- Starting from an empty log, if the clock does not go back, each request is admitted exactly if
  -- fewer than `limit` requests were admitted in the window that ends with it: pruning the log
  -- changes no decision.
  pub sliding_window_exact :
      (low : ℕ) (ts : List ℕ)
      → Ascending low ts
      → run_sliding_window fl limit window_seconds [] ts
        ≡ admit_by_history limit (window_seconds * 1000) [] ts
  sliding_window_exact low ts asc = run-SameActive low [] [] ts (λ t le. refl) asc
