-- ===== src/Scripts/Seed/Again.antt =====
-- `main` of the seeding: what it creates, and that it can be run again.
use distributed_rate_limiter.Base.{
  All, Bool-cases, Elem, Elem-keep_if_of, List, Option, [], ap, arith, false, inl, inr, map, none,
  not, refl, subst, sym, true, ℕ, ◌++◌, ◌↔◌, ◌∙◌, ◌∷◌, ◌≡◌,
}
use distributed_rate_limiter.Base.Text.{Text, text_eq, text_eq_sound, eq_text_eq}
use distributed_rate_limiter.Policy.{Policy, PolicyCreate}
use distributed_rate_limiter.PolicyService.Libraries.{Library, Documented}
use distributed_rate_limiter.PolicyService.{ServiceError, CacheSettings, Store, list_policies}
use distributed_rate_limiter.PolicyService.Rows.{numbers_fit}
use distributed_rate_limiter.Scripts.{names_of, contains}
use distributed_rate_limiter.Scripts.Seed.{
  seed_policies, Creation, create_missing, seed_demo_policies,
}
use distributed_rate_limiter.Scripts.Seed.Missing.{
  Distinct, NewTo, Storable, Seeded, create_missing-Seeded, found,
}

has_row :
    (name : Text) (rows : List Policy)
    → contains name (names_of rows) ≡ true
    → (row : Policy) × Elem row rows × (row.name ≡ name)
unfolding contains
has_row name [] h = absurd (cc)
has_row name (p ∷ rows) h = elim (Bool-cases (text_eq p.name name)) [
  | inl e ↦ (p, inl refl, text_eq_sound p.name name e)
  | inr e ↦ let (row, mem, is) = has_row name rows (rw e at h) in (row, inr mem, is)
]

has_name :
    (row : Policy) (rows : List Policy) → Elem row rows → contains row.name (names_of rows) ≡ true
unfolding contains
has_name row [] mem = absurd mem
has_name row (p ∷ rows) (inl e) = rw (eq_text_eq p.name row.name (ap (λ x. x.name) (sym e))) refl
has_name row (p ∷ rows) (inr mem) = ground (arith, has_name row rows mem)

All-of_Elem :
    (P : PolicyCreate → Type 0) (xs : List PolicyCreate)
    → ((p : PolicyCreate) → Elem p xs → P p)
    → All P xs
All-of_Elem P [] h = tt
All-of_Elem P (x ∷ xs) h = (h x (inl refl), All-of_Elem P xs (λ p mem. h p (inr mem)))

of_payload :
    (p : PolicyCreate) (rows : List Policy)
    → Elem p (map (λ row. row.payload) rows)
    → (row : Policy) × Elem row rows × (row.payload ≡ p)
of_payload p [] mem = absurd mem
of_payload p (row ∷ rows) (inl e) = (row, inl refl, sym e)
of_payload p (row ∷ rows) (inr mem) =
    let (found_row, m, is) = of_payload p rows mem in (found_row, inr m, is)

Elem-left : (row : Policy) (xs ys : List Policy) → Elem row xs → Elem row (xs ++ ys)
Elem-left row [] ys mem = absurd mem
Elem-left row (x ∷ xs) ys (inl e) = inl e
Elem-left row (x ∷ xs) ys (inr mem) = inr (Elem-left row xs ys mem)

Elem-right : (row : Policy) (xs ys : List Policy) → Elem row ys → Elem row (xs ++ ys)
Elem-right row [] ys mem = mem
Elem-right row (x ∷ xs) ys mem = inr (Elem-right row xs ys mem)

seed_policies-Distinct : Distinct seed_policies
unfolding text_eq
seed_policies-Distinct = (
  (refl, (refl, (refl, (refl, (refl, tt))))),
  (
    (refl, (refl, (refl, (refl, tt)))),
    ((refl, (refl, (refl, tt))), ((refl, (refl, tt)), ((refl, tt), (tt, tt)))),
  ),
)

storable_version :
    (row : Policy) (p : PolicyCreate)
    → row.payload ≡ p
    → row.version ≡ 1
    → numbers_fit (record row { payload = p; version = 1 }) ≡ true
    → numbers_fit row ≡ true
storable_version row p e v h =
    subst (λ q. numbers_fit (record row { payload = q }) ≡ true) (sym e)
      (subst (λ n. numbers_fit (record row { payload = p; version = n }) ≡ true) (sym v) h)

seed_policies-Storable : All Storable seed_policies
seed_policies-Storable =
    let one : (p : PolicyCreate)
        → ((row : Policy) → numbers_fit (record row { payload = p; version = 1 }) ≡ true)
        → Storable p =
      λ p h row e v. storable_version row p e v (h row) in
    (
      one _ (λ row. refl),
      (
        one _ (λ row. refl),
        (
          one _ (λ row. refl),
          (one _ (λ row. refl), (one _ (λ row. refl), (one _ (λ row. refl), tt))),
        ),
      ),
    )

module _ (l : Library) (laws : Documented l) (settings : CacheSettings) where
  -- The names that the loop starts from.
  abbrev pub existing_names : Store l → List Text
  existing_names s = names_of (list_policies l false s.rows)

  listed_iff :
      (name : Text) (s : Store l)
      → (contains name (names_of s.rows) ≡ true) ↔ (contains name (existing_names s) ≡ true)
  unfolding list_policies
  listed_iff name s = (
    λ h.
        let (row, mem, is) = has_row name s.rows h in
        subst (λ x. contains x (existing_names s) ≡ true) is
          (has_name row (l.order_by s.rows) ((laws.order_by-Elem row s.rows).1 mem)),
    λ h.
        let (row, mem, is) = has_row name (l.order_by s.rows) h in
        subst (λ x. contains x (names_of s.rows) ≡ true) is
          (has_name row s.rows ((laws.order_by-Elem row s.rows).0 mem)),
  )

  existing-NewTo :
      (s : Store l) (payloads : List PolicyCreate) → All (NewTo (existing_names s) s.rows) payloads
  existing-NewTo s [] = tt
  existing-NewTo s (p ∷ payloads) = (
    λ missing. elim (Bool-cases (contains p.name (names_of s.rows))) [
      | inl e ↦ let there = (listed_iff p.name s).0 e in absurd (cc)
      | inr e ↦ e
    ],
    existing-NewTo s payloads,
  )

  -- What the loop leaves, from the names that the rows have.
  seed_demo_policies-Seeded :
      (creations : ℕ → Creation) (s : Store l)
      → Seeded l laws settings creations
          (existing_names s)
          seed_policies
          s
          (seed_demo_policies l settings creations s)
  unfolding seed_demo_policies
  seed_demo_policies-Seeded creations s =
      create_missing-Seeded l laws settings creations (existing_names s) 0 seed_policies s
        seed_policies-Distinct (existing-NewTo s seed_policies) seed_policies-Storable

  nothing_missing :
      (creations : ℕ → Creation) (existing : List Text) (n : ℕ) (payloads : List PolicyCreate)
      (s : Store l)
      → All (λ p. contains p.name existing ≡ true) payloads
      → create_missing l settings creations existing n payloads s ≡ (none, s)
  unfolding create_missing
  nothing_missing creations existing n [] s h = refl
  nothing_missing creations existing n (p ∷ payloads) s (here, h) =
      found l laws settings creations existing n p payloads s here
      ∙ nothing_missing creations existing n payloads s h

  now_there :
      (creations : ℕ → Creation) (payloads : List PolicyCreate) (s : Store l)
      (result : Option ServiceError × Store l)
      → Seeded l laws settings creations (existing_names s) payloads s result
      → (p : PolicyCreate) → Elem p payloads
      → contains p.name (existing_names result.1) ≡ true
  now_there creations payloads s result h p mem =
      let there : (row : Policy)
          → Elem row (s.rows ++ h.added)
          → row.name ≡ p.name
          → contains p.name (existing_names result.1) ≡ true =
        λ row m is. (listed_iff p.name result.1).0 (
          subst (λ x. contains x (names_of result.1.rows) ≡ true) is
            (has_name row result.1.rows (subst (Elem row) (sym h.rows_after) m))) in
      elim (Bool-cases (contains p.name (existing_names s))) [
        | inl e ↦
            let (row, m, is) = has_row p.name s.rows ((listed_iff p.name s).1 e) in
            there row (Elem-left row s.rows h.added m) is
        | inr e ↦
            let kept =
              Elem-keep_if_of (λ q. not (contains q.name (existing_names s))) p payloads mem
                (rw e refl) in
            let (row, m, is) = of_payload p h.added (subst (Elem p) (sym h.payloads_added) kept) in
            there row (Elem-right row s.rows h.added m) (ap (λ x. x.name) is)
      ]

  -- Seeding raises nothing, keeps the rows, and adds behind them one new row for each demo policy
  -- whose name no row had, with exactly its payload and in the order of the list; running it again,
  -- with any ids, times and failing calls of Redis, raises nothing and changes nothing.
  pub seed_demo_policies_again :
      (creations again : ℕ → Creation) (s : Store l)
      → let seeded = seed_demo_policies l settings creations s in
        Seeded l laws settings creations (existing_names s) seed_policies s seeded
        × (seed_demo_policies l settings again seeded.1 ≡ (none, seeded.1))
  seed_demo_policies_again creations again s =
      let seeded = (seed_demo_policies l settings creations s).1 in
      let complete = seed_demo_policies-Seeded creations s in
      (
        complete,
        unfold seed_demo_policies in
            nothing_missing again (existing_names seeded) 0 seed_policies seeded
              (All-of_Elem _ seed_policies (now_there creations seed_policies s _ complete)),
      )
