-- ===== src/Tests/Scripts.antt =====
-- The sliding-window and the token-bucket script on the small servers.
use distributed_rate_limiter.Base.{
  All, List, [], ap, arith, false, refl, sym, true, ℕ, ◌∙◌, ◌∷◌, ◌≡◌, ◌≢◌, ◌≤◌,
}
use distributed_rate_limiter.Base.Int.{pos, ◌≤ℤ◌}
use distributed_rate_limiter.Base.Text.{Text, codes, text_eq, text_eq_refl}
use distributed_rate_limiter.Float.Fixed.{fixed, fixed-IsIeee}
use distributed_rate_limiter.Redis.Scripts.SlidingWindow.{
  script_replies, algorithm_replies, sliding_window_lua_refines, Fresh,
}
use distributed_rate_limiter.Redis.Scripts.TokenBucket.{replies, token_bucket_lua_bounds}
use distributed_rate_limiter.Redis.Scripts.TokenBucket.Burst.{
  admitted_of, at_once, token_bucket_lua_burst,
}
use distributed_rate_limiter.Tests.Server.{no_tables, server, server-Hashes}
use distributed_rate_limiter.Tests.SetServer.{
  no_logs, set_server, set_server-SortedSets, no_scores, no_members,
}

-- The third request is refused, and the last comes after the key was removed.
abbrev requests : List (ℕ × Text)
requests =
    (1000, codes "a")
    ∷ (2000, codes "b")
    ∷ (2000, codes "c")
    ∷ (61500, codes "d")
    ∷ (190000, codes "e")
    ∷ []

other : (s t : Text) → text_eq s t ≡ false → s ≢ t
other s t differ e =
    let same : text_eq s t ≡ true = ap (λ x. text_eq s x) (sym e) ∙ text_eq_refl s in absurd (cc)

-- The times do not decrease and the members differ.
requests-Fresh : Fresh fixed set_server set_server-SortedSets (codes "k") 2 60 500 no_logs requests
unfolding Fresh text_eq
requests-Fresh = (
  omega arith,
  no_members _ _,
  (other _ _ refl, (other _ _ refl, (other _ _ refl, (other _ _ refl, tt)))),
  (
    omega arith,
    no_members _ _,
    (other _ _ refl, (other _ _ refl, (other _ _ refl, tt))),
    (
      omega arith,
      no_members _ _,
      (other _ _ refl, (other _ _ refl, tt)),
      (omega arith, no_members _ _, (other _ _ refl, tt), (omega arith, no_members _ _, tt, tt)),
    ),
  ),
)

sliding_window_lua_refines_example :
    script_replies fixed set_server set_server-SortedSets (codes "k") 2 60 no_logs requests
    ≡ algorithm_replies fixed set_server set_server-SortedSets (codes "k") 2 60 [] requests
sliding_window_lua_refines_example =
    sliding_window_lua_refines fixed set_server set_server-SortedSets (codes "k") 2 60 500 no_logs
      requests requests-Fresh (no_scores 500 (codes "k"))

token_bucket_lua_bounds_example :
    All
      (λ reply. (pos 0 ≤ℤ reply.remaining) × (reply.remaining ≤ℤ pos 5))
      (replies fixed server (codes "k") 5 1000 1000000 60000 no_tables (1000 ∷ 1000 ∷ 4000 ∷ []))
token_bucket_lua_bounds_example =
    token_bucket_lua_bounds fixed (server {F = fixed.F}) (codes "k") 5 1000 1000000 60000
      fixed-IsIeee server-Hashes refl refl (omega arith) (omega arith) 500 no_tables
      (1000 ∷ 1000 ∷ 4000 ∷ []) (refl, refl) (omega arith, (omega arith, (omega arith, tt)))

token_bucket_lua_burst_example :
    admitted_of (replies fixed server (codes "k") 5 1000 1000000 60000 no_tables (at_once 7 1000))
    ≤ 5
token_bucket_lua_burst_example =
    token_bucket_lua_burst fixed fixed-IsIeee (server {F = fixed.F}) server-Hashes (codes "k") 5
      1000 60000 refl (omega arith) (omega arith) 7 1000 no_tables (refl, refl)
