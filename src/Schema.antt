-- ===== src/Schema.antt =====
-- The table of the policies: alembic/versions/20260409_000001_create_rate_limit_policies.py, on the
-- operations of alembic, which are an interface.
pub mod Downgraded
pub mod Fits
use distributed_rate_limiter.Base.{
  Bool, List, Option, [], false, none, some, true, ℕ, ◌++◌, ◌∷◌, ◌≡◌,
}
use distributed_rate_limiter.Base.Text.{Text, codes}

pub data ColumnType : Type 0 where
  uuid unlimited_text integer boolean timestamp : ColumnType
  string : ℕ → ColumnType
  enum : Text → ColumnType

pub record Column : Type 0 where
  pub name : Text
  pub column_type : ColumnType
  pub nullable : Bool
  pub primary_key : Bool
  pub server_default : Option Text

pub record Table : Type 0 where
  pub name : Text
  pub columns : List Column
  pub unique_constraints : List (Text × Text)
  -- the names of the indexes, and the columns that they are on
  pub indexes : List (Text × Text)

-- A type of an enumeration: its name and its values.
abbrev pub EnumType : Type 0
EnumType = Text × List Text

-- The operations of alembic on a database; none where one raises.
pub record Operations : Type 1 where
  pub Database : Type 0
  -- `op.create_table`, which creates the types of the enumerations of the columns as well
  pub create_table : Table → List EnumType → Database → Option Database
  -- an index by its name, its table and its column
  pub create_index : Text → Text → Text → Database → Option Database
  pub drop_index : Text → Text → Database → Option Database
  pub drop_table : Text → Database → Option Database
  -- `enum.drop(bind, checkfirst=True)`
  pub drop_type : Text → Database → Option Database

-- Operations in turn, up to the first one that raises.
unfoldable pub run_steps : {D : Type 0} → List (D → Option D) → D → Option D
run_steps [] d = some d
run_steps (step ∷ steps) d = elim (step d) [ none ↦ none | some d' ↦ run_steps steps d' ]

abbrev pub policies : Text
policies = codes "rate_limit_policies"

abbrev pub rate_limit_algorithm : EnumType
rate_limit_algorithm = (
  codes "rate_limit_algorithm",
  codes "fixed_window" ∷ codes "sliding_window_log" ∷ codes "token_bucket" ∷ [],
)

abbrev pub failure_mode : EnumType
failure_mode = (codes "failure_mode", codes "fail_open" ∷ codes "fail_closed" ∷ [])

abbrev pub column : Text → ColumnType → Bool → Option Text → Column
column name column_type nullable server_default = record {
  name = name;
  column_type = column_type;
  nullable = nullable;
  primary_key = false;
  server_default = server_default;
}

-- The columns of `upgrade`.
abbrev pub migrated_columns : List Column
migrated_columns =
    record (column (codes "id") uuid false none) { primary_key = true }
    ∷ column (codes "name") (string 120) false none
    ∷ column (codes "description") unlimited_text true none
    ∷ column (codes "algorithm") (enum (codes "rate_limit_algorithm")) false none
    ∷ column (codes "rate") integer false none
    ∷ column (codes "window_seconds") integer false none
    ∷ column (codes "burst_capacity") integer true none
    ∷ column (codes "active") boolean false (some (codes "true"))
    ∷ column (codes "priority") integer false (some (codes "0"))
    ∷ column (codes "version") integer false (some (codes "1"))
    ∷ column (codes "route") (string 255) true none
    ∷ column (codes "user_id") (string 128) true none
    ∷ column (codes "ip_address") (string 64) true none
    ∷ column (codes "tenant_id") (string 128) true none
    ∷ column (codes "api_key") (string 128) true none
    ∷ column (codes "failure_mode") (enum (codes "failure_mode")) false (some (codes "fail_closed"))
    ∷ column (codes "created_at") timestamp false (some (codes "now()"))
    ∷ column (codes "updated_at") timestamp false (some (codes "now()"))
    ∷ []

abbrev pub policies_table : Table
policies_table = record {
  name = policies;
  columns = migrated_columns;
  unique_constraints = (codes "uq_rate_limit_policies_name", codes "name") ∷ [];
  indexes = [];
}

module _ (op : Operations) where
  open op use {Database, create_table, create_index, drop_index, drop_table, drop_type}

  -- `upgrade`
  abbrev pub upgrade_steps : List (Database → Option Database)
  upgrade_steps =
      create_table policies_table (rate_limit_algorithm ∷ failure_mode ∷ [])
      ∷ create_index (codes "ix_rate_limit_policies_name") policies (codes "name")
      ∷ create_index (codes "ix_rate_limit_policies_route") policies (codes "route")
      ∷ create_index (codes "ix_rate_limit_policies_user_id") policies (codes "user_id")
      ∷ create_index (codes "ix_rate_limit_policies_ip_address") policies (codes "ip_address")
      ∷ create_index (codes "ix_rate_limit_policies_tenant_id") policies (codes "tenant_id")
      ∷ create_index (codes "ix_rate_limit_policies_api_key") policies (codes "api_key")
      ∷ []

  unfoldable pub upgrade : Database → Option Database
  upgrade = run_steps upgrade_steps

  -- `downgrade`
  abbrev pub downgrade_steps : List (Database → Option Database)
  downgrade_steps =
      drop_index (codes "ix_rate_limit_policies_api_key") policies
      ∷ drop_index (codes "ix_rate_limit_policies_tenant_id") policies
      ∷ drop_index (codes "ix_rate_limit_policies_ip_address") policies
      ∷ drop_index (codes "ix_rate_limit_policies_user_id") policies
      ∷ drop_index (codes "ix_rate_limit_policies_route") policies
      ∷ drop_index (codes "ix_rate_limit_policies_name") policies
      ∷ drop_table policies
      ∷ drop_type (codes "failure_mode")
      ∷ drop_type (codes "rate_limit_algorithm")
      ∷ []

  unfoldable pub downgrade : Database → Option Database
  downgrade = run_steps downgrade_steps

  -- The types of a table's enumerations dropped, the last one first.
  abbrev pub drop_types : List EnumType → List (Database → Option Database)
  drop_types [] = []
  drop_types ((name, values) ∷ types) = drop_types types ++ drop_type name ∷ []

  -- What is documented: what was created can be dropped, which leaves what was there before.
  pub record Documented : Type 0 where
    pub drop_index-create_index :
        (name table column : Text) (d d' : Database)
        → create_index name table column d ≡ some d'
        → drop_index name table d' ≡ some d
    pub drop_table-create_table :
        (t : Table) (types : List EnumType) (d d' : Database)
        → create_table t types d ≡ some d'
        → run_steps (drop_table t.name ∷ drop_types types) d' ≡ some d
