-- ===== src/Policy/Matcher/Matching.antt =====
-- `policy_matches` decides a relation that is stated selector by selector.
use distributed_rate_limiter.Base.{
  ◌≡◌, ◌↔◌, refl, sym, Bool, true, false, Option, none, some, arith, if◌then◌else◌,
}
use distributed_rate_limiter.Base.Text.{Text, option_text_eq_sound, option_text_eq_refl}
use distributed_rate_limiter.Keys.{RequestIdentity}
use distributed_rate_limiter.Policy.{Policy}
use distributed_rate_limiter.Policy.Matcher.{mismatch, policy_matches}

-- A selector that is set has the request's value.
abbrev pub Agrees : Option Text → Option Text → Type 0
Agrees none value = Unit
Agrees (some s) value = value ≡ some s

pub record Matches (p : Policy) (i : RequestIdentity) : Type 0 where
  pub route : Agrees p.route (some i.route)
  pub user_id : Agrees p.user_id i.user_id
  pub ip_address : Agrees p.ip_address i.ip_address
  pub tenant_id : Agrees p.tenant_id i.tenant_id
  pub api_key : Agrees p.api_key i.api_key

Agrees-of_mismatch : (s v : Option Text) → mismatch s v ≡ false → Agrees s v
Agrees-of_mismatch none v h = tt
Agrees-of_mismatch (some s) v h = sym (option_text_eq_sound (some s) v (ground arith))

mismatch_of_Agrees : (s v : Option Text) → Agrees s v → mismatch s v ≡ false
mismatch_of_Agrees none v h = refl
mismatch_of_Agrees (some s) v h = rw h (rw option_text_eq_refl)

-- The chain of early returns of `policy_matches` ends with `True` if no test fired.
no_mismatch :
    (a b c d e : Bool)
    → (if a
        then false
        else if b
        then false
        else if c
        then false
        else if d
        then false
        else if e
        then false
        else true)
      ≡ true
    → (a ≡ false) × (b ≡ false) × (c ≡ false) × (d ≡ false) × (e ≡ false)
no_mismatch a b c d e h = ground arith

policy_matches_sound : (p : Policy) (i : RequestIdentity) → policy_matches p i ≡ true → Matches p i
unfolding policy_matches
policy_matches_sound p i h =
    let (a, b, c, d, e) = no_mismatch _ _ _ _ _ h in
    record {
      route = Agrees-of_mismatch p.route (some i.route) a;
      user_id = Agrees-of_mismatch p.user_id i.user_id b;
      ip_address = Agrees-of_mismatch p.ip_address i.ip_address c;
      tenant_id = Agrees-of_mismatch p.tenant_id i.tenant_id d;
      api_key = Agrees-of_mismatch p.api_key i.api_key e;
    }

policy_matches_complete :
    (p : Policy) (i : RequestIdentity) → Matches p i → policy_matches p i ≡ true
unfolding policy_matches
policy_matches_complete p i m = rw (
  mismatch_of_Agrees p.route (some i.route) m.route,
  mismatch_of_Agrees p.user_id i.user_id m.user_id,
  mismatch_of_Agrees p.ip_address i.ip_address m.ip_address,
  mismatch_of_Agrees p.tenant_id i.tenant_id m.tenant_id,
  mismatch_of_Agrees p.api_key i.api_key m.api_key,
)

-- A policy matches a request exactly if each selector that it sets has the request's value.
pub policy_matches_iff :
    (p : Policy) (i : RequestIdentity) → (policy_matches p i ≡ true) ↔ Matches p i
policy_matches_iff p i = (policy_matches_sound p i, policy_matches_complete p i)
