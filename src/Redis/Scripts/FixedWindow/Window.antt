-- ===== src/Redis/Scripts/FixedWindow/Window.antt =====
-- The counter of a window and the state of `apply_fixed_window`: what the two have in common, and
-- that the script keeps it.
use distributed_rate_limiter.Base.{
  Bool-cases, Option, [], arith, false, if◌then◌else◌, inl, inr, leb, min, none, refl, some, subst,
  ℕ, ◌*◌, ◌++◌, ◌+◌, ◌-◌, ◌<◌, ◌==◌, ◌∷◌, ◌≡◌, ◌≢◌, ◌≤◌,
}
use distributed_rate_limiter.Base.Int.{pos}
use distributed_rate_limiter.Base.Text.{
  Text, text_eq, text_eq_refl, text_eq_sound, decimal, decimal-injective,
}
use distributed_rate_limiter.Float.{Float}
use distributed_rate_limiter.Algorithms.FixedWindow.{
  FixedWindowState, window_of, apply_fixed_window,
}
use distributed_rate_limiter.Redis.{Redis, Counter, Counters, incremented}
use distributed_rate_limiter.Redis.Scripts.{Reply, window_key, fixed_window_lua}
use distributed_rate_limiter.Redis.Scripts.Replies.{reply_of}

append_cancel : (s t u : Text) → s ++ t ≡ s ++ u → t ≡ u
append_cancel [] t u e = e
append_cancel (c ∷ s) t u e = append_cancel s t u (cc)

-- The keys of different windows are different.
window_key-injective : (key : Text) (v w : ℕ) → window_key key v ≡ window_key key w → v ≡ w
window_key-injective key v w e =
    let tails = append_cancel key (b':' ∷ decimal v) (b':' ∷ decimal w) e in
    decimal-injective v w (cc)

other_window :
    (key : Text) (v w : ℕ) → v ≢ w → text_eq (window_key key v) (window_key key w) ≡ false
other_window key v w ne = elim (Bool-cases (text_eq (window_key key v) (window_key key w))) [
  | inl e ↦ absurd (ne (window_key-injective key v w (text_eq_sound _ _ e)))
  | inr e ↦ e
]

-- The window lies after the one of the state.
abbrev pub IsAhead : Option FixedWindowState → ℕ → Type 0
IsAhead none w = Unit
IsAhead (some v) w = v.window_start_ms < w

-- The script's counter of the state's window: it counts refused requests too.
abbrev pub Counts : ℕ → FixedWindowState → Option Counter → Type 0
Counts limit v none = ⊥
Counts limit v (some c) = (0 < c.value) × (v.count ≡ min c.value limit)

abbrev pub LivesTo : ℕ → Option Counter → Type 0
LivesTo end none = ⊥
LivesTo end (some c) = (d : ℕ) × (c.deadline ≡ some d) × (end ≤ d)

module _ (fl : Float) (r : Redis fl.F) (laws : Counters r) (key : Text)
    (limit window_seconds : ℕ) where
  abbrev pub W : ℕ
  W = window_seconds * 1000

  -- The key of a window at a time.
  abbrev pub at : ℕ → ℕ → r.Db → Option Counter
  at t w db = laws.counter t (window_key key w) db

  -- The database, beside the state of `apply_fixed_window`: no counter of a later window is there,
  -- and the counter of the state's window is there until the window ends.
  pub record Agrees (low : ℕ) (db : r.Db) (state : Option FixedWindowState) : Type 0 where
    pub none_ahead : (w : ℕ) → IsAhead state w → at low w db ≡ none
    pub reached : (v : FixedWindowState) → state ≡ some v → v.window_start_ms ≤ window_of W low
    pub same :
        (v : FixedWindowState)
        → state ≡ some v
        → low < v.window_start_ms + W
        → Counts limit v (at low v.window_start_ms db)
          × LivesTo (v.window_start_ms + W) (at low v.window_start_ms db)

  -- The script's answer by the count that INCR gives.
  abbrev pub answer : ℕ → ℕ → Reply
  answer t count = record {
    allowed = if leb count limit then 1 else 0;
    limit = limit;
    remaining = pos (if leb count limit then limit - count else 0);
    reset_at_ms = pos (window_of W t + W);
    retry_ms = pos (window_of W t + W - t);
  }

  pub lua-answer :
      (t : ℕ) (db : r.Db)
      → (fixed_window_lua fl r t key limit W db).0
        ≡ answer t (incremented (at t (window_of W t) db)).value
  unfolding fixed_window_lua
  lua-answer t db = rw (laws.incr_value t (window_key key (window_of W t)) db) refl

  pub answer_first :
      (t : ℕ) (state : Option FixedWindowState)
      → ((v : FixedWindowState) → state ≡ some v → v.window_start_ms ≢ window_of W t)
      → answer t 1 ≡ reply_of limit (apply_fixed_window fl t state limit window_seconds).1
  unfolding apply_fixed_window
  answer_first t none fresh = ground arith
  answer_first t (some v) fresh = ground (arith, fresh v refl)

  pub answer_next :
      (t n : ℕ) (v : FixedWindowState)
      → v.window_start_ms ≡ window_of W t
      → 0 < n
      → v.count ≡ min n limit
      → answer t (n + 1) ≡ reply_of limit (apply_fixed_window fl t (some v) limit window_seconds).1
  unfolding apply_fixed_window
  answer_next t n v here positive counted = ground arith

  -- The script writes the key of the present window alone.
  others_kept :
      (t w : ℕ) (db : r.Db)
      → window_of W t ≢ w
      → at t w (fixed_window_lua fl r t key limit W db).1 ≡ at t w db
  unfolding fixed_window_lua
  others_kept t w db ne =
      let start = window_of W t in
      let k = window_key key start in
      let (count, db1) = r.incr t k db in
      let away = other_window key start w ne in
      let one : at t w db1 ≡ at t w db =
        rw (laws.counter-incr t k (window_key key w) db, away) refl in
      elim (Bool-cases (count == 1)) [
        | inl e ↦
            rw (e, laws.counter-pexpire t (W + 1000) k (window_key key w) db1 (omega arith), away)
              one
        | inr e ↦ rw e one
      ]

  abbrev bumped : ℕ → Counter → Counter
  bumped t c = if c.value == 1 then record c { deadline = some (t + (W + 1000)) } else c

  own_bumped :
      (t : ℕ) (db : r.Db)
      → at t (window_of W t) (fixed_window_lua fl r t key limit W db).1
        ≡ some (bumped t (incremented (at t (window_of W t) db)))
  unfolding fixed_window_lua
  own_bumped t db =
      let k = window_key key (window_of W t) in
      let (count, db1) = r.incr t k db in
      let inc = incremented (laws.counter t k db) in
      let now_is : laws.counter t k db1 ≡ some inc =
        rw (laws.counter-incr t k k db, text_eq_refl k) refl in
      let counted = laws.incr_value t k db in
      elim (Bool-cases (inc.value == 1)) [
        | inl e ↦
            rw
              (
                counted,
                e,
                laws.counter-pexpire t (W + 1000) k k db1 (omega arith),
                text_eq_refl k,
                now_is,
              )
              refl
        | inr e ↦ rw (counted, e) now_is
      ]

  -- What the state is after a request at `t`, by the state before.
  pub next_first :
      (t : ℕ) (state : Option FixedWindowState)
      → ((v : FixedWindowState) → state ≡ some v → v.window_start_ms ≢ window_of W t)
      → let v' = (apply_fixed_window fl t state limit window_seconds).0 in
        (v'.window_start_ms ≡ window_of W t) × (v'.count ≡ min 1 limit)
  unfolding apply_fixed_window
  next_first t none fresh = ground arith
  next_first t (some v) fresh = ground (arith, fresh v refl)

  pub next_counted :
      (t n : ℕ) (v : FixedWindowState)
      → v.window_start_ms ≡ window_of W t
      → v.count ≡ min n limit
      → let v' = (apply_fixed_window fl t (some v) limit window_seconds).0 in
        (v'.window_start_ms ≡ window_of W t) × (v'.count ≡ min (n + 1) limit)
  unfolding apply_fixed_window
  next_counted t n v here counted = ground arith

  pub first_bumped :
      (t : ℕ) (db : r.Db) (v' : FixedWindowState)
      → at t (window_of W t) db ≡ none
      → v'.window_start_ms ≡ window_of W t
      → v'.count ≡ min 1 limit
      → let o = at t v'.window_start_ms (fixed_window_lua fl r t key limit W db).1 in
        Counts limit v' o × LivesTo (v'.window_start_ms + W) o
  first_bumped t db v' missing here counted =
      rw (here, own_bumped t db, missing)
        ((omega arith, counted), (t + (W + 1000), refl, omega arith))

  pub next_bumped :
      (t : ℕ) (db : r.Db) (c : Counter) (v' : FixedWindowState)
      → at t (window_of W t) db ≡ some c
      → 0 < c.value
      → LivesTo (window_of W t + W) (some c)
      → v'.window_start_ms ≡ window_of W t
      → v'.count ≡ min (c.value + 1) limit
      → let o = at t v'.window_start_ms (fixed_window_lua fl r t key limit W db).1 in
        Counts limit v' o × LivesTo (v'.window_start_ms + W) o
  next_bumped t db c v' found positive (d, e, le) here counted =
      let more : (c.value + 1 == 1) ≡ false = ground arith in
      rw (here, own_bumped t db, found, more) ((omega arith, counted), (d, e, le))

  -- What is read at `t` of what was read at `low`.
  pub still_missing : (low t w : ℕ) (db : r.Db) → low ≤ t → at low w db ≡ none → at t w db ≡ none
  still_missing low t w db le e = rw (laws.counter_later low t (window_key key w) db le, e) refl

  pub still_there :
      (low t w : ℕ) (db : r.Db) (c : Counter)
      → low ≤ t
      → at low w db ≡ some c
      → LivesTo (w + W) (some c)
      → t < w + W
      → at t w db ≡ some c
  still_there low t w db c le e (d, dead, later) soon =
      rw (laws.counter_later low t (window_key key w) db le, e, dead) (ground arith)

  -- The state after the request agrees with the database after the script, if its own counter does.
  pub Agrees-of_own :
      (low t : ℕ) (db : r.Db) (state : Option FixedWindowState) (v' : FixedWindowState)
      → low ≤ t
      → ((w : ℕ) → window_of W t < w → at low w db ≡ none)
      → v'.window_start_ms ≡ window_of W t
      → (let o = at t v'.window_start_ms (fixed_window_lua fl r t key limit W db).1 in
          Counts limit v' o × LivesTo (v'.window_start_ms + W) o)
      → Agrees t (fixed_window_lua fl r t key limit W db).1 (some v')
  Agrees-of_own low t db state v' le ahead here own = record {
    none_ahead = λ w lt.
        let beyond : window_of W t < w = omega (arith, here) in
        rw (others_kept t w db (λ e. omega arith)) (still_missing low t w db le (ahead w beyond));
    reached = λ v e.
        let same_v : v' ≡ v = cc in
        let h : v'.window_start_ms ≤ window_of W t = omega (arith, here) in
        subst (λ u. u.window_start_ms ≤ window_of W t) same_v h;
    same = λ v e soon.
        let same_v : v' ≡ v = cc in
        subst
          (λ (u : FixedWindowState).
            Counts limit u (at t u.window_start_ms (fixed_window_lua fl r t key limit W db).1)
            × LivesTo (u.window_start_ms + W)
                (at t u.window_start_ms (fixed_window_lua fl r t key limit W db).1))
          same_v own;
  }
