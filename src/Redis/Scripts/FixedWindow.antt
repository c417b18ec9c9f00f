-- ===== src/Redis/Scripts/FixedWindow.antt =====
-- The fixed-window script answers as `apply_fixed_window` does, whichever instances call it: since
-- a script is atomic, the calls of all instances are one sequence.
pub mod Window
use distributed_rate_limiter.Base.{
  Ascending, List, Option, [], ap, arith, none, refl, some, subst, ℕ, ◌*◌, ◌+◌, ◌<◌, ◌∙◌, ◌∷◌, ◌≡◌,
  ◌≢◌, ◌≤◌,
}
use native.Mathlib.Decide.{ℕ_discrete}
use distributed_rate_limiter.Base.Text.{Text}
use distributed_rate_limiter.Float.{Float}
use distributed_rate_limiter.Algorithms.FixedWindow.{
  FixedWindowState, window_of, apply_fixed_window,
}
use distributed_rate_limiter.Algorithms.FixedWindow.Quota.{window_of_mono}
use distributed_rate_limiter.Redis.{Redis, Counter, Counters, incremented}
use distributed_rate_limiter.Redis.Scripts.{Reply, window_key, fixed_window_lua}
use distributed_rate_limiter.Redis.Scripts.Replies.{reply_of}
use distributed_rate_limiter.Redis.Scripts.FixedWindow.Window.{Counts, LivesTo}
use distributed_rate_limiter.Redis.Scripts.FixedWindow.Window

module _ (fl : Float) (r : Redis fl.F) (laws : Counters r) (key : Text)
    (limit window_seconds : ℕ) where
  abbrev W : ℕ
  W = window_seconds * 1000

  abbrev Agrees : ℕ → r.Db → Option FixedWindowState → Type 0
  Agrees = Window.Agrees fl r laws key limit window_seconds

  abbrev at : ℕ → ℕ → r.Db → Option Counter
  at = Window.at fl r laws key limit window_seconds

  abbrev answer : ℕ → ℕ → Reply
  answer = Window.answer fl r laws key limit window_seconds

  -- One request on both sides.
  abbrev InStep : ℕ → r.Db → Option FixedWindowState → Type 0
  InStep t db state =
      ((fixed_window_lua fl r t key limit W db).0
        ≡ reply_of limit (apply_fixed_window fl t state limit window_seconds).1)
      × Agrees t (fixed_window_lua fl r t key limit W db).1
          (some (apply_fixed_window fl t state limit window_seconds).0)

  step_first :
      (low t : ℕ) (db : r.Db) (state : Option FixedWindowState)
      → low ≤ t
      → ((w : ℕ) → window_of W t < w → at low w db ≡ none)
      → at t (window_of W t) db ≡ none
      → ((v : FixedWindowState) → state ≡ some v → v.window_start_ms ≢ window_of W t)
      → InStep t db state
  step_first low t db state le ahead missing fresh =
      let v' = (apply_fixed_window fl t state limit window_seconds).0 in
      let (here, counted) = Window.next_first fl r laws key limit window_seconds t state fresh in
      (
        Window.lua-answer fl r laws key limit window_seconds t db
            ∙ ap (λ o. answer t (incremented o).value) missing
            ∙ Window.answer_first fl r laws key limit window_seconds t state fresh,
        Window.Agrees-of_own fl r laws key limit window_seconds low t db state v' le ahead here
            (Window.first_bumped fl r laws key limit window_seconds t db v' missing here counted),
      )

  step_next :
      (low t : ℕ) (db : r.Db) (v : FixedWindowState) (c : Counter)
      → low ≤ t
      → ((w : ℕ) → window_of W t < w → at low w db ≡ none)
      → v.window_start_ms ≡ window_of W t
      → at t (window_of W t) db ≡ some c
      → Counts limit v (some c)
      → LivesTo (window_of W t + W) (some c)
      → InStep t db (some v)
  step_next low t db v c le ahead here found (positive, counted) lives =
      let v' = (apply_fixed_window fl t (some v) limit window_seconds).0 in
      let (here', counted') =
        Window.next_counted fl r laws key limit window_seconds t c.value v here counted in
      (
        Window.lua-answer fl r laws key limit window_seconds t db
            ∙ ap (λ o. answer t (incremented o).value) found
            ∙ Window.answer_next fl r laws key limit window_seconds t c.value v here positive
                counted,
        Window.Agrees-of_own fl r laws key limit window_seconds low t db (some v) v' le ahead here'
            (Window.next_bumped fl r laws key limit window_seconds t db c v' found positive lives
              here' counted'),
      )

  in_window : (t : ℕ) → 0 < window_seconds → t < window_of W t + W
  in_window t positive = grind arith

  step_same :
      (low t : ℕ) (db : r.Db) (v : FixedWindowState) (o : Option Counter)
      → low ≤ t
      → 0 < window_seconds
      → Agrees low db (some v)
      → v.window_start_ms ≡ window_of W t
      → at low v.window_start_ms db ≡ o
      → Counts limit v o × LivesTo (v.window_start_ms + W) o
      → InStep t db (some v)
  step_same low t db v none le positive agrees here e h = absurd (h.0)
  step_same low t db v (some c) le positive agrees here e (counts, lives) =
      let lives' : LivesTo (window_of W t + W) (some c) =
        subst (λ w. LivesTo (w + W) (some c)) here lives in
      let e' : at low (window_of W t) db ≡ some c = subst (λ w. at low w db ≡ some c) here e in
      step_next low t db v c le (λ w lt. agrees.none_ahead w (omega (arith, here))) here
        (Window.still_there fl r laws key limit window_seconds low t (window_of W t) db c le e'
          lives' (in_window t positive))
        counts lives'

  step-InStep :
      (low t : ℕ) (db : r.Db) (state : Option FixedWindowState)
      → low ≤ t
      → 0 < window_seconds
      → Agrees low db state
      → InStep t db state
  step-InStep low t db none le positive agrees =
      step_first low t db none le (λ w lt. agrees.none_ahead w tt)
        (Window.still_missing fl r laws key limit window_seconds low t (window_of W t) db le
          (agrees.none_ahead (window_of W t) tt))
        (λ v e. cc)
  step-InStep low t db (some v) le positive agrees =
      let past = agrees.reached v refl in
      let mono = window_of_mono W low t (omega arith) le in
      elim (ℕ_discrete v.window_start_ms (window_of W t)) [
        | yes here ↦
            let soon : low < v.window_start_ms + W = omega (arith, in_window t positive, here) in
            step_same low t db v (at low v.window_start_ms db) le positive agrees here refl
              (agrees.same v refl soon)
        | no away ↦
            let before : v.window_start_ms < window_of W t = omega (arith, past, mono) in
            step_first low t db (some v) le (λ w lt. agrees.none_ahead w (omega (arith, before)))
              (Window.still_missing fl r laws key limit window_seconds low t (window_of W t) db le
                (agrees.none_ahead (window_of W t) before))
              (λ u e.
                let same_v : v ≡ u = cc in
                subst (λ (x : FixedWindowState). x.window_start_ms ≢ window_of W t) same_v away)
      ]

  -- Requests at the given times: the answers of the script, and of `apply_fixed_window`.
  unfoldable pub script_replies : r.Db → List ℕ → List Reply
  script_replies db [] = []
  script_replies db (t ∷ ts) =
      let (reply, db') = fixed_window_lua fl r t key limit (window_seconds * 1000) db in
      reply ∷ script_replies db' ts

  unfoldable pub algorithm_replies : Option FixedWindowState → List ℕ → List Reply
  algorithm_replies state [] = []
  algorithm_replies state (t ∷ ts) =
      let (s, c) = apply_fixed_window fl t state limit window_seconds in
      reply_of limit c ∷ algorithm_replies (some s) ts

  run-Agrees :
      (low : ℕ) (db : r.Db) (state : Option FixedWindowState) (ts : List ℕ)
      → 0 < window_seconds
      → Ascending low ts
      → Agrees low db state
      → script_replies db ts ≡ algorithm_replies state ts
  unfolding script_replies algorithm_replies
  run-Agrees low db state [] positive asc agrees = refl
  run-Agrees low db state (t ∷ ts) positive asc agrees =
      let (now_same, agrees') = step-InStep low t db state asc.0 positive agrees in
      let db' = (fixed_window_lua fl r t key limit W db).1 in
      let v' = (apply_fixed_window fl t state limit window_seconds).0 in
      let rest = run-Agrees t db' (some v') ts positive asc.1 agrees' in λ i. now_same i ∷ rest i

  -- Where no counter of the key is left over and the server's clock does not go back, the script
  -- answers each request of any sequence as `apply_fixed_window` does: with the same decision, the
  -- same remaining quota, and the same reset and retry times.
  pub fixed_window_lua_refines :
      (low : ℕ) (db : r.Db) (ts : List ℕ)
      → 0 < window_seconds
      → Ascending low ts
      → ((w : ℕ) → laws.counter low (window_key key w) db ≡ none)
      → script_replies db ts ≡ algorithm_replies none ts
  fixed_window_lua_refines low db ts positive asc fresh =
      run-Agrees low db none ts positive asc
        (record { none_ahead = λ w h. fresh w; reached = λ v e. cc; same = λ v e soon. cc })
