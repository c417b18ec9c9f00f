-- ===== src/Local/States.antt =====
-- A dictionary from keys to stored states, as the function of its lookups.
use distributed_rate_limiter.Base.{
  Bool-cases, Option, if◌then◌else◌, inl, inr, leb, none, some, ℕ, ◌≡◌, ◌≢◌,
}
use distributed_rate_limiter.Base.Text.{Text, text_eq, text_eq_refl, text_eq_sound}

pub record StoredState (V : Type 0) : Type 0 where
  pub value : V
  pub expires_at_ms : ℕ

abbrev pub Dict : Type 0 → Type 0
Dict V = Text → Option (StoredState V)

-- `if state.expires_at_ms <= now_ms: bucket.pop(key)`
abbrev pub drop_expired : {V : Type 0} → ℕ → Option (StoredState V) → Option (StoredState V)
drop_expired now_ms none = none
drop_expired now_ms (some st) = if leb st.expires_at_ms now_ms then none else some st

module _ {V : Type 0} where
  abbrev pub empty : Dict V
  empty key = none

  unfoldable pub put : Text → StoredState V → Dict V → Dict V
  put key st d j = if text_eq key j then some st else d j

  unfoldable pub evict : ℕ → Dict V → Dict V
  evict now_ms d key = drop_expired now_ms (d key)

  pub put_self : (key : Text) (st : StoredState V) (d : Dict V) → put key st d key ≡ some st
  unfolding put
  put_self key st d = rw (text_eq_refl key)

  pub put_ne : (key j : Text) (st : StoredState V) (d : Dict V) → key ≢ j → put key st d j ≡ d j
  unfolding put
  put_ne key j st d ne = elim (Bool-cases (text_eq key j)) [
    | inl e ↦ absurd (ne (text_eq_sound key j e))
    | inr e ↦ rw e
  ]
