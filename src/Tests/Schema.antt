-- ===== src/Tests/Schema.antt =====
-- The migration on a database that is the list of the names of its relations, and the row of a
-- policy.
use distributed_rate_limiter.Base.{
  List, Option, [], ap, if◌then◌else◌, none, refl, some, subst, true, ◌∙◌, ◌∷◌, ◌≡◌,
}
use distributed_rate_limiter.Base.Text.{Text, codes, text_eq, text_eq_refl}
use distributed_rate_limiter.Policy.{validate}
use distributed_rate_limiter.Schema.{
  Operations, Documented, EnumType, upgrade, downgrade, drop_types, run_steps, migrated_columns,
}
use distributed_rate_limiter.Schema.Downgraded.{run_steps-append, go_on, downgrade-upgrade}
use distributed_rate_limiter.Schema.Fits.{take_row, row_of, validate-take_row}
use distributed_rate_limiter.Tests.Sample.{user_policy}

abbrev pop : Text → List Text → Option (List Text)
pop name [] = none
pop name (n ∷ names) = if text_eq n name then some names else none

abbrev stack : Operations
stack = record {
  Database = List Text;
  create_table = λ t types d. some (t.name ∷ d);
  create_index = λ name table column d. some (name ∷ d);
  drop_index = λ name table d. pop name d;
  drop_table = pop;
  drop_type = λ name d. some d;
}

run_steps-drop_types :
    (types : List EnumType) (d : List Text) → run_steps (drop_types stack types) d ≡ some d
unfolding run_steps
run_steps-drop_types [] d = refl
run_steps-drop_types ((name, values) ∷ types) d =
    run_steps-append (drop_types stack types) ((λ d. some d) ∷ []) d
    ∙ ap (go_on ((λ d. some d) ∷ [])) (run_steps-drop_types types d)

pop-push : (name : Text) (d d' : List Text) → some (name ∷ d) ≡ some d' → pop name d' ≡ some d
pop-push name d d' e =
    let top : name ∷ d ≡ d' = cc in
    subst (λ x. pop name x ≡ some d) top (rw (text_eq_refl name) refl)

stack-Documented : Documented stack
unfolding run_steps
stack-Documented = record {
  drop_index-create_index = λ name table column d d' e. pop-push name d d' e;
  drop_table-create_table = λ t types d d' e.
      ap (go_on (drop_types stack types)) (pop-push t.name d d' e) ∙ run_steps-drop_types types d;
}

abbrev migrated : List Text
migrated =
    codes "ix_rate_limit_policies_api_key"
    ∷ codes "ix_rate_limit_policies_tenant_id"
    ∷ codes "ix_rate_limit_policies_ip_address"
    ∷ codes "ix_rate_limit_policies_user_id"
    ∷ codes "ix_rate_limit_policies_route"
    ∷ codes "ix_rate_limit_policies_name"
    ∷ codes "rate_limit_policies"
    ∷ codes "alembic_version"
    ∷ []

migrated_lem : upgrade stack (codes "alembic_version" ∷ []) ≡ some migrated
unfolding upgrade run_steps
migrated_lem = refl

downgrade-upgrade_example : downgrade stack migrated ≡ some (codes "alembic_version" ∷ [])
downgrade-upgrade_example =
    downgrade-upgrade stack stack-Documented (codes "alembic_version" ∷ []) migrated migrated_lem

validate-take_row_example : take_row migrated_columns (row_of user_policy) ≡ true
validate-take_row_example = validate-take_row user_policy (unfold validate in refl)
