-- ===== src/Scripts/Seed/Missing.antt =====
-- Seeding creates the policies whose names are missing, and a second seeding changes nothing.
use distributed_rate_limiter.Base.{
  All, Bool-cases, List, Option, [], ap, append-nil, append_assoc, arith, false, inl, inr, keep_if,
  map, none, not, refl, subst, sym, true, ℕ, ◌++◌, ◌+◌, ◌||◌, ◌∙◌, ◌∷◌, ◌≡◌,
}
use distributed_rate_limiter.Base.Text.{Text, text_eq}
use distributed_rate_limiter.Policy.{Policy, PolicyCreate}
use distributed_rate_limiter.PolicyService.Libraries.{Library, Documented}
use distributed_rate_limiter.PolicyService.{
  ServiceError, CacheSettings, Store, create_policy, commit_error, invalidate_policy_cache,
}
use distributed_rate_limiter.PolicyService.Rows.{name_taken, numbers_fit}
use distributed_rate_limiter.PolicyService.Coherent.{invalidate-rows}
use distributed_rate_limiter.Scripts.{names_of, contains}
use distributed_rate_limiter.Scripts.Seed.{Creation, create_missing}

-- Each name differs from those after it.
abbrev pub Distinct : List PolicyCreate → Type 0
Distinct [] = Unit
Distinct (p ∷ payloads) = All (λ q. text_eq p.name q.name ≡ false) payloads × Distinct payloads

-- The names of the rows are those that existed, as far as the payloads tell.
abbrev pub NewTo : List Text → List Policy → PolicyCreate → Type 0
NewTo existing rows p = contains p.name existing ≡ false → contains p.name (names_of rows) ≡ false

-- A new row of the payload has integers of 32 bits.
abbrev pub Storable : PolicyCreate → Type 0
Storable p = (row : Policy) → row.payload ≡ p → row.version ≡ 1 → numbers_fit row ≡ true

not_taken :
    (id name : Text) (rows : List Policy)
    → contains name (names_of rows) ≡ false
    → name_taken id name rows ≡ false
unfolding contains name_taken
not_taken id name [] h = refl
not_taken id name (p ∷ rows) h = elim (Bool-cases (text_eq p.name name)) [
  | inl e ↦ absurd (let no : true ≡ false = rw e at h in cc)
  | inr e ↦ rw e (not_taken id name rows (rw e at h))
]

names_of-append :
    (name : Text) (rows : List Policy) (row : Policy)
    → contains name (names_of (rows ++ row ∷ []))
      ≡ (contains name (names_of rows) || text_eq row.name name)
unfolding contains
names_of-append name [] row = ground arith
names_of-append name (p ∷ rows) row = elim (Bool-cases (text_eq p.name name)) [
  | inl e ↦ rw e refl
  | inr e ↦ rw e (names_of-append name rows row)
]

module _ (l : Library) (laws : Documented l) (settings : CacheSettings)
    (creations : ℕ → Creation) where
  -- What the loop leaves: no exception, and behind the rows a new one for each payload whose name
  -- was missing.
  pub record Seeded (existing : List Text) (payloads : List PolicyCreate) (s : Store l)
      (result : Option ServiceError × Store l) : Type 0 where
    pub no_error : result.0 ≡ none
    pub added : List Policy
    pub rows_after : result.1.rows ≡ s.rows ++ added
    pub payloads_added :
        map (λ row. row.payload) added ≡ keep_if (λ p. not (contains p.name existing)) payloads

  still_new :
      (existing : List Text) (rows : List Policy) (row : Policy) (payloads : List PolicyCreate)
      → All (λ q. text_eq row.name q.name ≡ false) payloads
      → All (NewTo existing rows) payloads
      → All (NewTo existing (rows ++ row ∷ [])) payloads
  still_new existing rows row [] distinct new = tt
  still_new existing rows row (q ∷ payloads) (differs, distinct) (here, new) = (
    λ missing. names_of-append q.name rows row ∙ (rw (here missing, differs) refl),
    still_new existing rows row payloads distinct new,
  )

  -- The row that a creation gives to a payload, and the store with it.
  abbrev row_of : Creation → PolicyCreate → Policy
  row_of c p = record {
    payload = p;
    id = c.new_id;
    version = 1;
    created_at = c.at_ms;
    updated_at = c.at_ms;
  }

  abbrev with_row : ℕ → PolicyCreate → Store l → Store l
  with_row n p s =
      let c = creations n in
      invalidate_policy_cache l settings c.calls (record s { rows = s.rows ++ row_of c p ∷ [] })

  pub found :
      (existing : List Text) (n : ℕ) (p : PolicyCreate) (payloads : List PolicyCreate) (s : Store l)
      → contains p.name existing ≡ true
      → create_missing l settings creations existing n (p ∷ payloads) s
        ≡ create_missing l settings creations existing n payloads s
  unfolding create_missing
  found existing n p payloads s e = rw (e, create_missing) refl

  create_policy-row :
      (n : ℕ) (p : PolicyCreate) (s : Store l)
      → contains p.name (names_of s.rows) ≡ false
      → Storable p
      → let c = creations n in
        create_policy l settings c.calls c.new_id c.at_ms p s ≡ (inr (row_of c p), with_row n p s)
  unfolding create_policy commit_error
  create_policy-row n p s new storable =
      rw
        (
          storable (row_of (creations n) p) refl refl,
          not_taken (creations n).new_id p.name s.rows new,
        )
        refl

  created :
      (existing : List Text) (n : ℕ) (p : PolicyCreate) (payloads : List PolicyCreate) (s : Store l)
      → contains p.name existing ≡ false
      → contains p.name (names_of s.rows) ≡ false
      → Storable p
      → create_missing l settings creations existing n (p ∷ payloads) s
        ≡ create_missing l settings creations existing (n + 1) payloads (with_row n p s)
  unfolding create_missing
  created existing n p payloads s e new storable =
      let is = create_policy-row n p s new storable in
      rw (e, is, create_missing)
        (ap (λ r. create_missing l settings creations existing (n + 1) payloads r.1) is)

  also_found :
      (existing : List Text) (p : PolicyCreate) (payloads : List PolicyCreate) (s : Store l)
      (result : Option ServiceError × Store l)
      → contains p.name existing ≡ true
      → Seeded existing payloads s result
      → Seeded existing (p ∷ payloads) s result
  also_found existing p payloads s result e h = record {
    no_error = h.no_error;
    added = h.added;
    rows_after = h.rows_after;
    payloads_added = rw e h.payloads_added;
  }

  also_created :
      (existing : List Text) (n : ℕ) (p : PolicyCreate) (payloads : List PolicyCreate) (s : Store l)
      (result : Option ServiceError × Store l)
      → contains p.name existing ≡ false
      → Seeded existing payloads (with_row n p s) result
      → Seeded existing (p ∷ payloads) s result
  also_created existing n p payloads s result e h = record {
    no_error = h.no_error;
    added = row_of (creations n) p ∷ h.added;
    rows_after =
        h.rows_after
        ∙ ap (λ r. r ++ h.added) (invalidate-rows l laws settings (creations n).calls _)
        ∙ append_assoc s.rows (row_of (creations n) p ∷ []) h.added;
    payloads_added = rw e (ap (λ x. p ∷ x) h.payloads_added);
  }

  pub create_missing-Seeded :
      (existing : List Text) (n : ℕ) (payloads : List PolicyCreate) (s : Store l)
      → Distinct payloads
      → All (NewTo existing s.rows) payloads
      → All Storable payloads
      → Seeded existing payloads s (create_missing l settings creations existing n payloads s)
  unfolding create_missing
  create_missing-Seeded existing n [] s distinct new fit = record {
    no_error = refl;
    added = [];
    rows_after = sym (append-nil s.rows);
    payloads_added = refl;
  }
  create_missing-Seeded existing n (p ∷ payloads) s (differ, distinct) (here, new) (storable, fit) =
      elim (Bool-cases (contains p.name existing)) [
        | inl e ↦ subst (Seeded existing (p ∷ payloads) s) (sym (found existing n p payloads s e)) (
            also_found existing p payloads s _ e
              (create_missing-Seeded existing n payloads s distinct new fit))
        | inr e ↦
            let rows =
              invalidate-rows l laws settings (creations n).calls
                (record s { rows = s.rows ++ row_of (creations n) p ∷ [] }) in
            let new' =
              subst (λ r. All (NewTo existing r) payloads) (sym rows)
                (still_new existing s.rows (row_of (creations n) p) payloads differ new) in
            subst (Seeded existing (p ∷ payloads) s)
              (sym (created existing n p payloads s e (here e) storable))
              (also_created existing n p payloads s _ e (
                create_missing-Seeded existing (n + 1) payloads (with_row n p s) distinct new' fit))
      ]
