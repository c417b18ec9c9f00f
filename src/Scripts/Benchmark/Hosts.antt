-- ===== src/Scripts/Benchmark/Hosts.antt =====
-- The target hosts, as the benchmark hands them to Locust.
use distributed_rate_limiter.Base.{
  All, List, Option, [], ap, arith, false, if◌then◌else◌, keep_if, map, none, not, refl, some, ℕ,
  ◌++◌, ◌==◌, ◌∙◌, ◌∷◌, ◌≡◌, ◌≢◌,
}
use mathlib.Core.List.{reverse}
use distributed_rate_limiter.Base.Text.{Text, Avoids, is_empty_text}
use distributed_rate_limiter.Keys.{strip}

-- `text.split(",")`: the first part, and the others.
unfoldable pub split_comma : Text → Text × List Text
split_comma [] = ([], [])
split_comma (c ∷ s) =
    let (part, parts) = split_comma s in if c == b',' then ([], part ∷ parts) else (c ∷ part, parts)

abbrev pub all_parts : Text × List Text → List Text
all_parts (part, parts) = part ∷ parts

-- TARGET_HOSTS of loadtests/locustfile.py
unfoldable pub target_hosts : Text → List Text
unfolding split_comma strip
target_hosts raw_hosts =
    map strip
      (keep_if (λ host. not (is_empty_text (strip host))) (all_parts (split_comma raw_hosts)))

abbrev lstrip_slash : Text → Text
lstrip_slash [] = []
lstrip_slash (c ∷ s) = let rest = lstrip_slash s in if c == b'/' then rest else c ∷ s

-- `host.rstrip("/")`
abbrev pub rstrip_slash : Text → Text
rstrip_slash s = reverse (lstrip_slash (reverse s))

-- `parse_target_hosts`; none where it raises ValueError.
unfoldable pub parse_target_hosts : Text → Option (List Text)
unfolding target_hosts
parse_target_hosts raw_hosts =
    let hosts = map rstrip_slash (target_hosts raw_hosts) in
    elim hosts [ [] ↦ none | h ∷ hs ↦ some (h ∷ hs) ]

-- `",".join(hosts)`, as `run_locust` hands them on.
abbrev pub join_comma : List Text → Text
join_comma [] = []
join_comma (h ∷ []) = h
join_comma (h ∷ g ∷ hosts) = h ++ b',' ∷ join_comma (g ∷ hosts)

-- A host without a comma that is stripped and not empty.
abbrev pub IsHost : Text → Type 0
IsHost h = Avoids b',' h × (strip h ≡ h) × (is_empty_text h ≡ false)

no_comma : (c : ℕ) → c ≢ b',' → (c == b',') ≡ false
no_comma c other = ground arith

abbrev onto_first : ℕ → List Text → List Text
onto_first c [] = []
onto_first c (part ∷ parts) = (c ∷ part) ∷ parts

split_one : (h : Text) → Avoids b',' h → all_parts (split_comma h) ≡ h ∷ []
unfolding split_comma
split_one [] a = refl
split_one (c ∷ h) (other, a) = rw (no_comma c other) (ap (onto_first c) (split_one h a))

split_first :
    (h rest : Text)
    → Avoids b',' h
    → all_parts (split_comma (h ++ b',' ∷ rest)) ≡ h ∷ all_parts (split_comma rest)
unfolding split_comma
split_first [] rest a = refl
split_first (c ∷ h) rest (other, a) =
    rw (no_comma c other) (ap (onto_first c) (split_first h rest a))

all_parts-join :
    (h : Text) (hosts : List Text)
    → All IsHost (h ∷ hosts)
    → all_parts (split_comma (join_comma (h ∷ hosts))) ≡ h ∷ hosts
all_parts-join h [] (is, _) = split_one h is.0
all_parts-join h (g ∷ hosts) (is, others) =
    split_first h (join_comma (g ∷ hosts)) is.0 ∙ ap (λ x. h ∷ x) (all_parts-join g hosts others)

kept :
    (hosts : List Text)
    → All IsHost hosts
    → map strip (keep_if (λ host. not (is_empty_text (strip host))) hosts) ≡ hosts
kept [] h = refl
kept (h ∷ hosts) ((a, is, full), others) = rw (is, full) (λ i. is i ∷ kept hosts others i)

-- Locust reads back the hosts that the benchmark joins, where there is one at least and each is
-- stripped, not empty and without a comma.
pub target_hosts-join_comma :
    (h : Text) (hosts : List Text)
    → All IsHost (h ∷ hosts)
    → target_hosts (join_comma (h ∷ hosts)) ≡ h ∷ hosts
unfolding target_hosts
target_hosts-join_comma h hosts are =
    ap (λ parts. map strip (keep_if (λ host. not (is_empty_text (strip host))) parts))
      (all_parts-join h hosts are)
    ∙ kept (h ∷ hosts) are
