-- ===== src/Keys/Client.antt =====
-- The client address: the first hop of the forwarding header, without white space around it.
use mathlib.Core.List.{reverse, reverse-append, reverse-reverse}
use distributed_rate_limiter.Base.{
  ◌≡◌, ◌≢◌, refl, ap, subst, sym, ◌∙◌, ℕ, true, false, Option, some, [], ◌∷◌, ◌++◌, append-nil,
  arith, All, All-append,
}
use distributed_rate_limiter.Base.Text.{Text, codes, Avoids}
use distributed_rate_limiter.Keys.{
  Request, before_comma, is_space, lstrip, strip, from_forwarded, extract_client_ip,
}

before_comma_lem : (s rest : Text) → Avoids b',' s → before_comma (s ++ b',' ∷ rest) ≡ s
unfolding before_comma
before_comma_lem [] rest a = refl
before_comma_lem (c ∷ s) rest a = ground (arith, before_comma_lem s rest a.1)

-- All characters are white space; none is.
abbrev pub Blank : Text → Type 0
Blank = All (λ c. is_space c ≡ true)

abbrev pub Solid : Text → Type 0
Solid = All (λ c. is_space c ≡ false)

lstrip-Blank : (w s : Text) → Blank w → lstrip (w ++ s) ≡ lstrip s
unfolding lstrip
lstrip-Blank [] s b = refl
lstrip-Blank (c ∷ w) s b = rw (b.0) (lstrip-Blank w s b.1)

lstrip_solid_head : (c : ℕ) (s : Text) → is_space c ≡ false → lstrip (c ∷ s) ≡ c ∷ s
unfolding lstrip
lstrip_solid_head c s h = rw h

lstrip-Solid : (s : Text) → Solid s → lstrip s ≡ s
lstrip-Solid [] h = unfold lstrip in refl
lstrip-Solid (c ∷ s) h = lstrip_solid_head c s h.0

All-reverse : (P : ℕ → Type 0) (s : Text) → All P s → All P (reverse s)
All-reverse P [] h = tt
All-reverse P (c ∷ s) h =
    subst (All P) (sym (reverse-append (c ∷ []) s))
      (All-append P (reverse s) (c ∷ []) (All-reverse P s h.1) (h.0, tt))

lstrip-padded : (s w : Text) → Solid s → Blank w → reverse (lstrip (reverse (lstrip (s ++ w)))) ≡ s
lstrip-padded [] w hs hw =
    let gone : lstrip w ≡ [] =
      ap lstrip (sym (append-nil w)) ∙ lstrip-Blank w [] hw ∙ (unfold lstrip in refl) in
    rw gone (unfold lstrip in refl)
lstrip-padded (c ∷ s) w hs hw = rw (lstrip_solid_head c (s ++ w) hs.0) (
    ap (λ u. reverse (lstrip u)) (reverse-append (c ∷ s) w)
    ∙ ap reverse (lstrip-Blank (reverse w) (reverse (c ∷ s)) (All-reverse _ w hw))
    ∙ ap reverse (lstrip-Solid (reverse (c ∷ s)) (All-reverse _ (c ∷ s) hs))
    ∙ reverse-reverse (c ∷ s))

strip_lem : (w s w' : Text) → Blank w → Solid s → Blank w' → strip (w ++ (s ++ w')) ≡ s
unfolding strip
strip_lem w s w' h hs h' =
    ap (λ u. reverse (lstrip (reverse u))) (lstrip-Blank w (s ++ w') h) ∙ lstrip-padded s w' hs h'

from_forwarded_lem :
    (t : Text) (host : Option Text)
    → t ≢ []
    → from_forwarded (some t) host ≡ some (strip (before_comma t))
unfolding from_forwarded
from_forwarded_lem [] host h = absurd (h refl)
from_forwarded_lem (c ∷ t) host h = refl

append_comma-ne_nil : (t rest : Text) → t ++ b',' ∷ rest ≢ []
append_comma-ne_nil [] rest e = cc
append_comma-ne_nil (c ∷ t) rest e = cc

-- The address is the first entry of the forwarding header without the white space around it,
-- whatever addresses proxies append behind a comma, and whatever the peer's address is.
pub extract_client_ip_first :
    (r : Request) (w s w' rest : Text)
    → Blank w
    → Solid s
    → Blank w'
    → Avoids b',' (w ++ (s ++ w'))
    → r.header (codes "X-Forwarded-For") ≡ some ((w ++ (s ++ w')) ++ b',' ∷ rest)
    → extract_client_ip r ≡ some s
unfolding extract_client_ip
extract_client_ip_first r w s w' rest hw hs hw' a e =
    ap (λ h. from_forwarded h r.client_host) e
    ∙ from_forwarded_lem _ r.client_host (append_comma-ne_nil (w ++ (s ++ w')) rest)
    ∙ ap (λ u. some (strip u)) (before_comma_lem (w ++ (s ++ w')) rest a)
    ∙ ap some (strip_lem w s w' hw hs hw')
