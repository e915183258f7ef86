-- ===== src/Db/Pool.antt =====
-- utils/db_connection_pool.cpp: connections of the zdb library. Whether the library makes its
-- objects and has a connection, and what a statement does there, are arguments; `active` counts the
-- connections that were taken and not closed. The text of a statement is its format with the
-- arguments put in.
use integration_server.Prelude.{
  ℕ, ◌+◌, ◌-◌, Bool, true, false, ◌++◌, take, Option, none, some, ltb, ◌==◌, if◌then◌else◌,
}
use integration_server.Db.Text.{Text, codes}

abbrev pub db_pool_min_count : ℕ
db_pool_min_count = 5

abbrev pub db_conn_min_timeout : ℕ
db_conn_min_timeout = 5

abbrev pub db_error_len : ℕ
db_error_len = 10000

abbrev pub sql_max_len : ℕ
sql_max_len = 5000

abbrev pub db_exec_success : Text
db_exec_success = codes "db exec success"

abbrev pub db_conn_is_null : Text
db_conn_is_null = codes "db conn is null"

abbrev pub db_kind_mysql : ℕ
db_kind_mysql = 1

abbrev pub db_kind_postgresql : ℕ
db_kind_postgresql = 2

abbrev pub db_kind_sqlite : ℕ
db_kind_sqlite = 3

abbrev pub db_kind_oracle : ℕ
db_kind_oracle = 4

pub record DbInitData : Type 0 where
  pub kind : ℕ
  pub conn_max_count : ℕ
  pub conn_init_count : ℕ
  pub time_out : ℕ
  pub host : Text
  pub datebase : Text
  pub user : Text
  pub password : Text

-- What ConnectionPool_set… was told, for a pool that was started.
pub record PoolSetting : Type 0 where
  pub init_count : ℕ
  pub max_count : ℕ
  pub timeout : ℕ
  pub reaper : ℕ

pub record DbConnectionPool : Type 0 where
  pub url : Option Text
  pub pool : Option PoolSetting
  pub active : ℕ

unfoldable pub new_pool : DbConnectionPool
new_pool = record { url = none; pool = none; active = 0 }

unfoldable pub kind_text : ℕ → Option Text
kind_text kind =
    if kind == db_kind_mysql
    then some (codes "mysql")
    else if kind == db_kind_oracle
    then some (codes "oracle")
    else if kind == db_kind_sqlite
    then some (codes "sqlite")
    else if kind == db_kind_postgresql
    then some (codes "postgresql")
    else none

-- snprintf into a buffer of 256 bytes.
unfoldable pub url_text : Text → DbInitData → Text
url_text kind d = take 255 (
    kind
    ++ codes "://"
    ++ d.host
    ++ codes "/"
    ++ d.datebase
    ++ codes "?user="
    ++ d.user
    ++ codes "&password="
    ++ d.password
    ++ codes "&charset=utf8mb4")

abbrev at_least : ℕ → ℕ → ℕ
at_least low n = if ltb n low then low else n

unfoldable pub setting : DbInitData → PoolSetting
setting d =
    let max_count = at_least db_pool_min_count d.conn_max_count in
    let init_count = if ltb max_count d.conn_init_count then max_count else d.conn_init_count in
    record {
      init_count = init_count;
      max_count = max_count;
      timeout = at_least db_conn_min_timeout d.time_out;
      reaper = init_count;
    }

-- By whether URL_new and ConnectionPool_new succeed.
unfoldable pub init : Bool → Bool → DbInitData → DbConnectionPool → Bool × DbConnectionPool
unfolding kind_text
init has_url has_pool d p = elim (kind_text d.kind) [
  | none ↦ (false, p)
  | some kind ↦
      if has_url
      then if has_pool
        then (true, record p { url = some (url_text kind d); pool = some (setting d) })
        else (false, record p { url = none; pool = none })
      else (false, record p { url = none })
]

unfoldable pub get_connection : DbConnectionPool → DbConnectionPool
get_connection p = record p { active = p.active + 1 }

unfoldable pub close_connection : DbConnectionPool → DbConnectionPool
close_connection p = record p { active = p.active - 1 }

-- What a statement does: it ends with a result, or throws an SQLException.
pub data Outcome (R : Type 0) : Type 0 where
  done : R → Outcome R
  threw : Text → Outcome R

-- vsnprintf with a size of SQL_MAX_LEN - 1, which ends the text with a zero.
unfoldable pub sql_text : Text → Text
sql_text text = take (sql_max_len - 1 - 1) text

unfoldable pub sql_error : Text → Text → Text
sql_error sql message =
    take (db_error_len - 1) (codes "Sql[" ++ sql ++ codes "] error:[" ++ message ++ codes "]")

-- The error, by how the function for the result ends.
unfoldable pub settle : {S : Type 0} → Text → Outcome Unit × S → Text × S
settle sql (threw message, s) = (sql_error sql message, s)
settle sql (done u, s) = (db_exec_success, s)

module _ {R S : Type 0} where
  -- What the database does, and the function that is given the result.
  unfoldable pub run_query : Text → Outcome R → (R → S → Outcome Unit × S) → S → Text × S
  run_query sql (threw message) func s = (sql_error sql message, s)
  run_query sql (done result) func s = settle sql (func result s)

  -- exec is execQuery without a function, and execQuery of a prepared statement has the same paths.
  unfoldable pub exec_query :
      Bool
      → (Text → Outcome R)
      → (R → S → Outcome Unit × S)
      → Text
      → DbConnectionPool
      → S
      → Text × DbConnectionPool × S
  exec_query has_connection query func text p s =
      if has_connection
      then (let r = run_query (sql_text text) (query (sql_text text)) func s in
          (r.0, close_connection (get_connection p), r.1))
      else (db_conn_is_null, p, s)

unfoldable pub exec :
    Bool → (Text → Outcome Unit) → Text → DbConnectionPool → Text × DbConnectionPool
unfolding sql_text
exec has_connection execute text p =
    if has_connection
    then (let sql = sql_text text in
        let error = elim (execute sql) as (λ _. Text) [
          | threw message ↦ sql_error sql message
          | done u ↦ db_exec_success
        ] in
        (error, close_connection (get_connection p)))
    else (db_conn_is_null, p)

unfoldable pub exec_func :
    {S : Type 0}
    → Bool
    → (S → Outcome Unit × S)
    → DbConnectionPool
    → S
    → Text × DbConnectionPool × S
exec_func has_connection func p s =
    if has_connection
    then (let r = func s in
        let error = elim r.0 as (λ _. Text) [
          | threw message ↦ take (db_error_len - 1) (codes "Exec sql error:" ++ message)
          | done u ↦ db_exec_success
        ] in
        (error, close_connection (get_connection p), r.1))
    else (db_conn_is_null, p, s)

unfoldable pub close : DbConnectionPool → DbConnectionPool
close p = record p { url = none; pool = none }
