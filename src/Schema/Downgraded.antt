-- ===== src/Schema/Downgraded.antt =====
-- Upgrading and downgrading again.
use distributed_rate_limiter.Base.{List, Option, [], ap, none, refl, some, sym, ◌++◌, ◌∙◌, ◌∷◌, ◌≡◌}
use distributed_rate_limiter.Base.Text.{Text, codes}
use distributed_rate_limiter.Schema.{
  Operations, Documented, run_steps, upgrade, downgrade, policies, policies_table,
  rate_limit_algorithm, failure_mode,
}

module _ {D : Type 0} where
  abbrev pub go_on : List (D → Option D) → Option D → Option D
  go_on steps none = none
  go_on steps (some d) = run_steps steps d

  run_steps-cons :
      (step : D → Option D) (steps : List (D → Option D)) (d : D)
      → run_steps (step ∷ steps) d ≡ go_on steps (step d)
  unfolding run_steps
  run_steps-cons step steps d = refl

  pub run_steps-append :
      (steps later : List (D → Option D)) (d : D)
      → run_steps (steps ++ later) d ≡ go_on later (run_steps steps d)
  unfolding run_steps
  run_steps-append [] later d = refl
  run_steps-append (step ∷ steps) later d = after (step d) (run_steps-append steps later)
    where
      after :
          (o : Option D)
          → ((m : D) → run_steps (steps ++ later) m ≡ go_on later (run_steps steps m))
          → go_on (steps ++ later) o ≡ go_on later (go_on steps o)
      after none ih = refl
      after (some m) ih = ih m

  -- The steps `back` undo the steps `forth`.
  record Undoes (back forth : List (D → Option D)) : Type 0 where
    undone : (d d' : D) → run_steps forth d ≡ some d' → run_steps back d' ≡ some d

  none-Undoes : Undoes [] []
  unfolding run_steps
  none-Undoes = record { undone = λ d d' e. sym e }

  -- A chain is undone by what undoes its steps, the last one first.
  cons-Undoes :
      (step : D → Option D) (steps back later : List (D → Option D))
      → Undoes later steps
      → ((d d' : D) → step d ≡ some d' → run_steps back d' ≡ some d)
      → Undoes (later ++ back) (step ∷ steps)
  cons-Undoes step steps back later undo first = record {
    undone = λ d d' e. after d d' (step d) refl (sym (run_steps-cons step steps d) ∙ e);
  }
    where
      after :
          (d d' : D) (o : Option D)
          → step d ≡ o
          → go_on steps o ≡ some d'
          → run_steps (later ++ back) d' ≡ some d
      after d d' none e h = cc
      after d d' (some m) e h =
          run_steps-append later back d' ∙ ap (go_on back) (undo.undone m d' h) ∙ first d m e

module _ (op : Operations) (laws : Documented op) where
  index_dropped :
      (name table column : Text) (d d' : op.Database)
      → op.create_index name table column d ≡ some d'
      → run_steps (op.drop_index name table ∷ []) d' ≡ some d
  unfolding run_steps
  index_dropped name table column d d' e =
      rw (laws.drop_index-create_index name table column d d' e) refl

  -- After an upgrade that succeeds the downgrade succeeds as well, and leaves the database as it was
  -- before: it drops each of the indexes, the table and the two types of enumerations that the
  -- upgrade creates, in an order in which this is possible.
  pub downgrade-upgrade : (d d' : op.Database) → upgrade op d ≡ some d' → downgrade op d' ≡ some d
  unfolding upgrade downgrade
  downgrade-upgrade d d' e =
      (cons-Undoes _ _ _ _
          (cons-Undoes _ _ _ _
            (cons-Undoes _ _ _ _
              (cons-Undoes _ _ _ _
                (cons-Undoes _ _ _ _
                  (cons-Undoes _ _ _ _
                    (cons-Undoes _ _ _ _ none-Undoes (
                      index_dropped (codes "ix_rate_limit_policies_api_key") policies
                        (codes "api_key")))
                    (index_dropped (codes "ix_rate_limit_policies_tenant_id") policies
                      (codes "tenant_id")))
                  (index_dropped (codes "ix_rate_limit_policies_ip_address") policies
                    (codes "ip_address")))
                (index_dropped (codes "ix_rate_limit_policies_user_id") policies (codes "user_id")))
              (index_dropped (codes "ix_rate_limit_policies_route") policies (codes "route")))
            (index_dropped (codes "ix_rate_limit_policies_name") policies (codes "name")))
          (laws.drop_table-create_table policies_table
            (rate_limit_algorithm ∷ failure_mode ∷ []))).undone
        d d' e
