-- ===== src/Db/Manager/Answers.antt =====
-- What the database says of the tables, and which statements that gives.
use integration_server.Prelude.{
  ℕ, ◌+◌, ◌≡◌, refl, sym, ap, ◌∙◌, inl, inr, Bool, true, false, ◌&&◌, List, [], ◌∷◌, ◌++◌, map,
  Option, none, some, ◌==◌, if◌then◌else◌, Bool-cases, append_assoc, append_nil,
}
use integration_server.Db.Text.{Text, codes, same_text, lookup}
use integration_server.Db.Pool.{Outcome, done, threw, sql_text}
use integration_server.Db.Sql.{SqlField, SqlTable, new_table, name_of, join, piece_loop-join}
use integration_server.Db.Manager.{
  DbTableData, DbTableCache, DbManager, Columns, data_type_unknown, field_type_of, read_fields,
}

-- The columns of a table, in the statements that select them for no condition.
pub record Selects (table : Text) (fields : List SqlField) (t : SqlTable) : Type 0 where
  pub all_rows :
      t.select_all
      ≡ codes "select " ++ join (map name_of fields) ++ codes " from " ++ table ++ codes ";"
  pub some_rows :
      t.select_where
      ≡ codes "select "
        ++ join (map name_of fields)
        ++ codes " from "
        ++ table
        ++ codes " where "
        ++ []
        ++ codes ";"

pub new_table-Selects :
    (format : ℕ → Text) (table : Text) (fields : List SqlField)
    → Selects table fields (new_table format table [] fields)
unfolding new_table
new_table-Selects format table fields = record {
  all_rows =
      ap (λ names. codes "select " ++ names ++ codes " from " ++ table ++ codes ";")
        (piece_loop-join name_of fields);
  some_rows =
      ap
        (λ names.
          codes "select " ++ names ++ codes " from " ++ table ++ codes " where " ++ [] ++ codes ";")
        (piece_loop-join name_of fields);
}

-- The column that a row describes.
abbrev pub column : Text × Text → SqlField
column (name, t) = record { field_type = field_type_of t; name = name }

-- Whether every row has a known type.
unfoldable pub all_known : List (Text × Text) → Bool
all_known [] = true
all_known ((name, t) ∷ rows) =
    if field_type_of t == data_type_unknown then false else all_known rows

-- The columns of a table, when the database gives a whole result of known types.
unfoldable pub columns_of : Outcome Columns → Option (List SqlField)
columns_of (threw message) = none
columns_of (done (rows, some message)) = none
columns_of (done (rows, none)) = if all_known rows then some (map column rows) else none

unfoldable pub is_some {ℓ} : {A : Type ℓ} → Option A → Bool
is_some none = false
is_some (some a) = true

pub read_fields_lem :
    (rows : List (Text × Text)) (fields : List SqlField)
    → read_fields rows fields ≡ (if all_known rows then some (fields ++ map column rows) else none)
unfolding read_fields all_known
read_fields_lem [] fields = ap some (sym (append_nil fields))
read_fields_lem ((name, t) ∷ rows) fields =
    elim (Bool-cases (field_type_of t == data_type_unknown)) [
      | inl unknown ↦ rw unknown refl
      | inr known ↦
          (let f = column (name, t) in
            rw known (
              read_fields_lem rows (fields ++ f ∷ [])
              ∙ ap (λ fs. if all_known rows then some fs else none)
                  (append_assoc fields (f ∷ []) (map column rows))))
    ]

-- The statements of a cached table.
abbrev pub sql_in : Option DbTableCache → Option (Option SqlTable)
sql_in none = none
sql_in (some c) = some c.sql

abbrev pub sql_of : Text → DbManager → Option (Option SqlTable)
sql_of t m = sql_in (lookup t m.table_cache_map)

module _ (has_connection : ℕ → Bool) (query : ℕ → Text → Outcome Columns) where
  -- What the call `i` gives for a table.
  unfoldable pub answer : ℕ → Text → Option (List SqlField)
  answer i table =
      if has_connection i
      then columns_of (query i (sql_text (codes "SHOW COLUMNS FROM " ++ table ++ codes ";")))
      else none

  -- Whether every table has its answer, the calls numbered from `i`.
  unfoldable pub all_answered : ℕ → List DbTableData → Bool
  all_answered i [] = true
  all_answered i (v ∷ vs) = is_some (answer i v.table) && all_answered (i + 1) vs

  -- The last answer for the table `t`, if any.
  unfoldable pub last_answer :
      Text → ℕ → List DbTableData → Option (List SqlField) → Option (List SqlField)
  last_answer t i [] o = o
  last_answer t i (v ∷ vs) o =
      last_answer t (i + 1) vs (if same_text v.table t then answer i v.table else o)
