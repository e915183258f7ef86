-- ===== src/Db/Manager.antt =====
-- utils/db_manager.cpp: the tables of a database, as the database describes them. What the library
-- does in a call is an argument, by the number of the call.
pub mod Answers
pub mod Loaded
use integration_server.Prelude.{
  ℕ, ◌+◌, Bool, true, false, List, [], ◌∷◌, ◌++◌, Option, none, some, ltb, ◌==◌, if◌then◌else◌,
}
use integration_server.Db.Text.{Text, codes, same_text, contains, lookup, store}
use integration_server.Db.Pool.{
  DbConnectionPool, Outcome, done, threw, exec_query, db_exec_success, DbInitData,
}
use integration_server.Db.Pool
use integration_server.Db.Sql.{SqlField, SqlTable, new_table}

abbrev pub data_type_unknown : ℕ
data_type_unknown = 0

abbrev pub data_type_string : ℕ
data_type_string = 1

abbrev pub data_type_int : ℕ
data_type_int = 2

abbrev pub data_type_llong : ℕ
data_type_llong = 3

abbrev pub data_type_uint : ℕ
data_type_uint = 4

abbrev pub data_type_ullong : ℕ
data_type_ullong = 5

abbrev pub data_type_blob : ℕ
data_type_blob = 7

abbrev pub db_manager_thread_min_count : ℕ
db_manager_thread_min_count = 1

pub record DbTableData : Type 0 where
  pub table : Text
  pub where_text : Text

pub record DbTableCache : Type 0 where
  pub table : Text
  pub where_text : Text
  pub sql : Option SqlTable

-- `ret` is the variable of loadTableField that the function for a result sets.
pub record DbManager : Type 0 where
  pub db_pool : DbConnectionPool
  pub table_cache_map : List (Text × DbTableCache)
  pub threads : ℕ
  pub ret : Bool

-- What a result set gives: its rows, of a name and a type, and then its end or an SQLException.
abbrev pub Columns : Type 0
Columns = List (Text × Text) × Option Text

unfoldable pub field_type_of : Text → ℕ
field_type_of t =
    if contains (codes "bigint") t
    then if contains (codes "unsigned") t then data_type_ullong else data_type_llong
    else if contains (codes "int") t
    then if contains (codes "unsigned") t then data_type_uint else data_type_int
    else if contains (codes "blob") t
    then data_type_blob
    else if contains (codes "varchar") t
    then data_type_string
    else if contains (codes "text") t
    then data_type_string
    else data_type_unknown

-- The rows up to the first of an unknown type, which is `none`.
unfoldable pub read_fields : List (Text × Text) → List SqlField → Option (List SqlField)
read_fields [] fields = some fields
read_fields ((name, t) ∷ rows) fields =
    let rest =
      read_fields rows (fields ++ record { field_type = field_type_of t; name = name } ∷ []) in
    if field_type_of t == data_type_unknown then none else rest

module _ (format : ℕ → Text) where
  unfoldable pub set_table :
      Text → Option Text → Option (List SqlField) → DbManager → Outcome Unit × DbManager
  set_table table end none m = (done tt, record m { ret = false })
  set_table table (some message) (some fields) m = (threw message, m)
  set_table table none (some fields) m = (
    done tt,
    record m {
      table_cache_map =
          store table
            (record {
              table = table;
              where_text = [];
              sql = some (new_table format table [] fields);
            })
            m.table_cache_map;
    },
  )

  unfoldable pub deal_result : Text → Columns → DbManager → Outcome Unit × DbManager
  unfolding set_table
  deal_result table (rows, end) m = set_table table end (read_fields rows []) m

  -- `m_tableCacheMap[value.table].where = value.where`
  unfoldable pub set_where : DbTableData → DbManager → DbManager
  set_where v m = record m {
    table_cache_map = elim (lookup v.table m.table_cache_map) [
      | none ↦
          store v.table (record { table = []; where_text = v.where_text; sql = none })
            m.table_cache_map
      | some c ↦ store v.table (record c { where_text = v.where_text }) m.table_cache_map
    ];
  }

  module _ (has_connection : ℕ → Bool) (query : ℕ → Text → Outcome Columns) where
    -- The execQuery of a table: the error, and the manager with its pool.
    unfoldable pub show_columns : ℕ → DbTableData → DbManager → Text × DbManager
    show_columns i v m =
        let r =
          exec_query (has_connection i) (query i) (deal_result v.table)
            (codes "SHOW COLUMNS FROM " ++ v.table ++ codes ";") m.db_pool m in
        (r.0, record r.2 { db_pool = r.1 })

    -- The loop of loadTableField.
    unfoldable pub load_loop : ℕ → List DbTableData → DbManager → Bool × DbManager
    load_loop i [] m = (m.ret, m)
    load_loop i (v ∷ vs) m =
        let r = show_columns i v m in
        let rest = load_loop (i + 1) vs (set_where v r.1) in
        if same_text r.0 db_exec_success
        then if r.1.ret then rest else (false, r.1)
        else (false, r.1)

    unfoldable pub load_table_field : List DbTableData → DbManager → Bool × DbManager
    load_table_field vs m = load_loop 0 vs (record m { ret = true })

    -- What the pool's init returns is not read.
    unfoldable pub init :
        Bool → Bool → ℕ → DbInitData → List DbTableData → DbManager → Bool × DbManager
    init has_url has_pool thread_count d vs m =
        let threads =
          if ltb thread_count db_manager_thread_min_count
          then db_manager_thread_min_count
          else thread_count in
        load_table_field vs
          (record m { db_pool = (Pool.init has_url has_pool d m.db_pool).1; threads = threads })

unfoldable pub get_table_sql : Option Text → DbManager → Option SqlTable
get_table_sql none m = none
get_table_sql (some table) m = elim (lookup table m.table_cache_map) [
  | none ↦ none
  | some c ↦ c.sql
]
