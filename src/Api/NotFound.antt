-- ===== src/Api/NotFound.antt =====
-- The handlers of one policy, where no row has the identifier.
use distributed_rate_limiter.Base.{inl, none, refl, some, ℕ, ◌≡◌}
use distributed_rate_limiter.Base.Text.{Text}
use distributed_rate_limiter.PolicyService.Libraries.{Library}
use distributed_rate_limiter.PolicyService.Update.{PolicyUpdate}
use distributed_rate_limiter.PolicyService.{
  CacheSettings, Calls, Store, get_policy, update_policy, delete_policy,
}
use distributed_rate_limiter.PolicyService.Rows.{find_id}
use distributed_rate_limiter.Api.{http, not_found, admin_get, admin_update, admin_delete}

module _ (l : Library) (settings : CacheSettings) (calls : Calls) where
  -- With the identifier of no row, each of the three handlers of one policy answers 404, and the
  -- store stays as it is: neither the database nor a cache is touched.
  pub admin_not_found :
      (policy_id : Text) (payload : PolicyUpdate) (t : ℕ) (s : Store l)
      → find_id policy_id s.rows ≡ none
      → (admin_get l policy_id s ≡ inl (http not_found))
        × (admin_update l settings calls t policy_id payload s ≡ (inl (http not_found), s))
        × (admin_delete l settings calls policy_id s ≡ (some (http not_found), s))
  unfolding admin_get admin_update admin_delete get_policy update_policy delete_policy
  admin_not_found policy_id payload t s e = (
    rw (admin_get, get_policy, e) refl,
    rw (admin_update, update_policy, e) refl,
    rw (admin_delete, delete_policy, e) refl,
  )
