-- ===== src/Db/Manager/Loaded.antt =====
-- What loadTableField leaves of the connections and of the tables, by the results of the database.
use integration_server.Prelude.{
  ℕ, ◌+◌, ◌≡◌, ◌⊎◌, refl, sym, ap, ◌∙◌, subst, inl, inr, Bool, true, false, ◌&&◌, List, [], ◌∷◌,
  ◌++◌, map, Option, none, some, if◌then◌else◌, arith, Bool-cases,
}
use integration_server.Db.Text.{
  Text, codes, same_text, same_text_eq, lookup, store, lookup-store, lookup-store_self,
}
use integration_server.Db.Pool.{
  Outcome, done, threw, exec_query, run_query, settle, get_connection, close_connection, sql_text,
  sql_error, db_exec_success,
}
use integration_server.Db.Sql.{SqlField, SqlTable, new_table}
use integration_server.Db.Manager.{
  DbTableData, DbTableCache, DbManager, Columns, set_table, deal_result, set_where, show_columns,
  load_loop, load_table_field,
}
use integration_server.Db.Manager.Answers.{
  Selects, new_table-Selects, all_known, column, columns_of, is_some, read_fields_lem, sql_in,
  sql_of, answer, all_answered, last_answer,
}

module _ (format : ℕ → Text) where
  -- The statements for `t` after an answer, when they were `base` before.
  abbrev value : Text → Option (Option SqlTable) → Option (List SqlField) → Option (Option SqlTable)
  value t base none = base
  value t base (some fields) = some (some (new_table format t [] fields))

  abbrev cache : Text → List SqlField → DbTableCache
  cache table fields = record {
    table = table;
    where_text = [];
    sql = some (new_table format table [] fields);
  }

  -- A result ends with an error or with `ret` unset, or its columns are cached.
  abbrev Shown :
      Text → Option (List SqlField) → DbManager → Text → Bool → List (Text × DbTableCache) → Type 0
  Shown table none m error ret tables = (same_text error db_exec_success && ret) ≡ false
  Shown table (some fields) m error ret tables =
      (same_text error db_exec_success ≡ true)
      × (ret ≡ m.ret)
      × (tables ≡ store table (cache table fields) m.table_cache_map)

  abbrev ShownBy : Text → Option (List SqlField) → DbManager → Text × DbManager → Type 0
  ShownBy table o m r = Shown table o m r.0 r.1.ret r.1.table_cache_map

  set_table-Shown :
      (sql table : Text) (known : Bool) (fields : List SqlField) (end : Option Text) (m : DbManager)
      → ShownBy table
          (elim end [ none ↦ if known then some fields else none | some message ↦ none ])
          m
          (settle sql (set_table format table end (if known then some fields else none) m))
  unfolding settle set_table sql_error same_text
  set_table-Shown sql table true fields none m = (refl, refl, refl)
  set_table-Shown sql table true fields (some message) m = refl
  set_table-Shown sql table false fields none m = refl
  set_table-Shown sql table false fields (some message) m = refl

  run_query-Shown :
      (sql table : Text) (o : Outcome Columns) (m : DbManager)
      → ShownBy table (columns_of o) m (run_query sql o (deal_result format table) m)
  unfolding run_query deal_result settle sql_error same_text columns_of
  run_query-Shown sql table (threw message) m = refl
  run_query-Shown sql table (done (rows, end)) m =
      subst
        (λ o.
          ShownBy table (columns_of (done (rows, end))) m
            (settle sql (set_table format table end o m)))
        (sym (read_fields_lem rows []))
        (set_table-Shown sql table (all_known rows) (map column rows) end m)

  -- The statements of a table after the calls for another one and its condition.
  sql_of-set_where :
      (t : Text) (v : DbTableData) (fields : List SqlField) (m n : DbManager)
      → n.table_cache_map ≡ store v.table (cache v.table fields) m.table_cache_map
      → sql_of t (set_where format v n) ≡ (
          if same_text v.table t
          then some (some (new_table format v.table [] fields))
          else sql_of t m)
  unfolding set_where
  sql_of-set_where t v fields m n e =
      let c = cache v.table fields in
      let k = store v.table c m.table_cache_map in
      let found : lookup v.table n.table_cache_map ≡ some c =
        ap (lookup v.table) e ∙ lookup-store_self v.table c m.table_cache_map in
      let one = lookup-store t v.table c m.table_cache_map in
      let d : DbTableCache = record c { where_text = v.where_text } in
      let same : lookup t (set_where format v n).table_cache_map ≡ lookup t (store v.table d k) =
        rw (found, e, set_where) refl in
      ap sql_in (same ∙ lookup-store t v.table d k) ∙ (elim (Bool-cases (same_text v.table t)) [
        | inl s ↦ rw s refl
        | inr s ↦ rw s (ap sql_in one ∙ rw s refl)
      ])

  -- The statements after a turn of the loop.
  stored-value :
      (v : DbTableData) (fields : List SqlField) (m n : DbManager) (t : Text)
      (base : Option (Option SqlTable)) (o : Option (List SqlField))
      → n.table_cache_map ≡ store v.table (cache v.table fields) m.table_cache_map
      → sql_of t m ≡ value t base o
      → sql_of t (set_where format v n)
        ≡ value t base (if same_text v.table t then some fields else o)
  stored-value v fields m n t base o e before =
      sql_of-set_where t v fields m n e ∙ (elim (Bool-cases (same_text v.table t)) [
        | inl s ↦
            rw s (ap (λ u. some (some (new_table format u [] fields))) (same_text_eq v.table t s))
        | inr s ↦ rw s before
      ])

  module _ (has_connection : ℕ → Bool) (query : ℕ → Text → Outcome Columns) where
    show_columns-Shown :
        (i : ℕ) (v : DbTableData) (m : DbManager)
        → let r = show_columns format has_connection query i v m in
          (r.1.db_pool.active ≡ m.db_pool.active)
          × ShownBy v.table (answer has_connection query i v.table) m r
    unfolding show_columns exec_query get_connection close_connection same_text answer
    show_columns-Shown i v m = elim (Bool-cases (has_connection i)) [
      | inr e ↦ rw (e, show_columns, exec_query) (refl, refl)
      | inl e ↦
          (let sql = sql_text (codes "SHOW COLUMNS FROM " ++ v.table ++ codes ";") in
            let h = run_query-Shown sql v.table (query i sql) m in
            rw (e, show_columns, exec_query) (omega arith, h))
    ]

    -- What the loop makes of the tables, and whether it succeeds.
    record Loads (i : ℕ) (vs : List DbTableData) (m : DbManager) (r : Bool × DbManager)
        : Type 0 where
      active : r.1.db_pool.active ≡ m.db_pool.active
      answered : r.0 ≡ all_answered has_connection query i vs
      tables :
          all_answered has_connection query i vs ≡ true
          → (t : Text) (base : Option (Option SqlTable)) (o : Option (List SqlField))
          → sql_of t m ≡ value t base o
          → sql_of t r.1 ≡ value t base (last_answer has_connection query t i vs o)

    -- A call that has no answer ends the loop.
    stopped :
        (a b : Bool) (x y : Bool × DbManager)
        → (a && b) ≡ false
        → (if a then if b then x else y else y) ≡ y
    stopped true true x y e = absurd cc
    stopped true false x y e = refl
    stopped false b x y e = refl

    -- One turn of the loop, by the answer of its call.
    load_step-Loads :
        (i : ℕ) (v : DbTableData) (vs : List DbTableData) (m : DbManager) (r : Text × DbManager)
        (rest : Bool × DbManager) (a : Option (List SqlField))
        → answer has_connection query i v.table ≡ a
        → m.ret ≡ true
        → r.1.db_pool.active ≡ m.db_pool.active
        → ShownBy v.table a m r
        → (r.1.ret ≡ true → Loads (i + 1) vs (set_where format v r.1) rest)
        → Loads i (v ∷ vs) m (
            if same_text r.0 db_exec_success
            then if r.1.ret then rest else (false, r.1)
            else (false, r.1))
    unfolding all_answered is_some last_answer set_where
    load_step-Loads i v vs m r rest none e ok act shown h =
        subst (Loads i (v ∷ vs) m)
          (sym (stopped (same_text r.0 db_exec_success) r.1.ret rest (false, r.1) shown))
          (record {
            active = act;
            answered = rw e refl;
            tables = λ all. absurd (let false_is_true = rw e at all in cc);
          })
    load_step-Loads i v vs m r rest (some fields) e ok act (good, kept, stored) h =
        let l = h (kept ∙ ok) in
        rw (good, kept ∙ ok)
          (record {
            active = l.active ∙ act;
            answered = rw e l.answered;
            tables = λ all t base o before. rw e (
                l.tables (rw e at all) t base (if same_text v.table t then some fields else o)
                  (stored-value v fields m r.1 t base o stored before));
          })

    load_loop-Loads :
        (i : ℕ) (vs : List DbTableData) (m : DbManager)
        → m.ret ≡ true
        → Loads i vs m (load_loop format has_connection query i vs m)
    unfolding load_loop all_answered last_answer set_where
    load_loop-Loads i [] m ok = record {
      active = refl;
      answered = ok;
      tables = λ all t base o before. before;
    }
    load_loop-Loads i (v ∷ vs) m ok =
        let (act, shown) = show_columns-Shown i v m in
        let r = show_columns format has_connection query i v m in
        load_step-Loads i v vs m r
          (load_loop format has_connection query (i + 1) vs (set_where format v r.1))
          (answer has_connection query i v.table) refl ok act shown
          (λ still. load_loop-Loads (i + 1) vs (set_where format v r.1) still)

  -- What stands for the table `t`: what stood there before, or the statements of an answer.
  abbrev pub Cached : Text → DbManager → DbManager → Option (List SqlField) → Type 0
  Cached t m n none = sql_of t n ≡ sql_of t m
  Cached t m n (some fields) =
      (table : SqlTable) × (sql_of t n ≡ some (some table))
      × (table ≡ new_table format t [] fields)
      × Selects t fields table

  Cached-value :
      (t : Text) (m n : DbManager) (o : Option (List SqlField))
      → sql_of t n ≡ value t (sql_of t m) o
      → Cached t m n o
  Cached-value t m n none e = e
  Cached-value t m n (some fields) e =
      (new_table format t [] fields, e, refl, new_table-Selects format t fields)

  -- For any connections, results and exceptions of the database, loadTableField gives back every
  -- connection that it takes; it returns true exactly when every table has an answer, that is when
  -- its call has a connection and its result is read to the end with columns of known types; and
  -- then any table stands with the statements that the constructor of SQLTable builds from its
  -- name, the columns of the last answer for it, in their order, and no condition, whatever
  -- condition was asked for, and a table without an answer as before: the statements that select
  -- name the columns with commas between them, and end in a where without a condition.
  pub load_table_field_lem :
      (has_connection : ℕ → Bool) (query : ℕ → Text → Outcome Columns) (vs : List DbTableData)
      (m : DbManager)
      → let r = load_table_field format has_connection query vs m in
        (r.1.db_pool.active ≡ m.db_pool.active)
        × (r.0 ≡ all_answered has_connection query 0 vs)
        × ((r.0 ≡ false)
            ⊎ ((t : Text) → Cached t m r.1 (last_answer has_connection query t 0 vs none)))
  unfolding load_table_field
  load_table_field_lem has_connection query vs m =
      let h = load_loop-Loads has_connection query 0 vs (record m { ret = true }) refl in
      (
        h.active,
        h.answered,
        elim (Bool-cases (all_answered has_connection query 0 vs)) [
          | inr failed ↦ inl (h.answered ∙ failed)
          | inl all ↦ inr (λ t.
              Cached-value t m (load_table_field format has_connection query vs m).1
                (last_answer has_connection query t 0 vs none)
                (h.tables all t (sql_of t m) none refl))
        ],
      )
