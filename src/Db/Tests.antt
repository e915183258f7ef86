-- ===== src/Db/Tests.antt =====
-- Tables of two columns, and the theorem there.
use integration_server.Prelude.{ℕ, ◌≡◌, ◌⊎◌, Bool, true, false, List, [], ◌∷◌, none}
use integration_server.Db.Text.{Text, codes, contains, has_prefix}
use integration_server.Db.Pool.{Outcome, done, new_pool}
use integration_server.Db.Manager.{DbTableData, DbManager, Columns, field_type_of, load_table_field}
use integration_server.Db.Manager.Answers.{
  all_known, columns_of, is_some, answer, all_answered, last_answer,
}
use integration_server.Db.Manager.Loaded.{Cached, load_table_field_lem}

abbrev empty_manager : DbManager
empty_manager = record { db_pool = new_pool; table_cache_map = []; threads = 0; ret = true }

abbrev no_format : ℕ → Text
no_format t = []

abbrev connected : ℕ → Bool
connected i = true

abbrev two_columns : ℕ → Text → Outcome Columns
two_columns i sql =
    done ((codes "id", codes "int(11) unsigned") ∷ (codes "name", codes "varchar(20)") ∷ [], none)

-- The second of two tables is described again by the third call.
abbrev three_tables : List DbTableData
three_tables =
    record { table = codes "item"; where_text = [] }
    ∷ record { table = codes "user"; where_text = codes "id=%u" }
    ∷ record { table = codes "user"; where_text = codes "id=%u" }
    ∷ []

load_table_field_lem_example :
    let r = load_table_field no_format connected two_columns three_tables empty_manager in
    (r.1.db_pool.active ≡ 0)
    × (r.0 ≡ true)
    × ((r.0 ≡ false)
        ⊎ ((t : Text)
            → Cached no_format t empty_manager r.1
                (last_answer connected two_columns t 0 three_tables none)))
unfolding new_pool all_answered answer columns_of is_some all_known field_type_of contains
    has_prefix
load_table_field_lem_example =
    load_table_field_lem no_format connected two_columns three_tables empty_manager
