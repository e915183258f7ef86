-- ===== src/Db/Sql.antt =====
-- utils/sql.cpp: the statements of a table. getTypeFormatParam returns a pointer into a string that
-- is gone; what is read there is the argument `format`.
use integration_server.Prelude.{
  ℕ, ◌+◌, ◌<◌, ◌≡◌, refl, ap, ◌∙◌, List, [], ◌∷◌, ◌++◌, map, ltb, if◌then◌else◌, arith, append_nil,
}
use integration_server.Db.Text.{Text, codes}

pub record SqlField : Type 0 where
  pub field_type : ℕ
  pub name : Text

pub record SqlTable : Type 0 where
  pub select_all : Text
  pub select_limit : Text
  pub select_count : Text
  pub select_where : Text
  pub update : Text
  pub insert : Text

-- A loop of the constructor from the index `i` on: the pieces, with ", " before all but the first.
unfoldable pub piece_loop : (SqlField → Text) → ℕ → List SqlField → Text
piece_loop piece i [] = []
piece_loop piece i (f ∷ fs) =
    (if ltb 0 i then codes ", " else []) ++ (piece f ++ piece_loop piece (i + 1) fs)

abbrev pub name_of : SqlField → Text
name_of f = f.name

unfoldable pub new_table : (ℕ → Text) → Text → Text → List SqlField → SqlTable
new_table format table where_text fields =
    let names = piece_loop name_of 0 fields in
    record {
      select_all = codes "select " ++ names ++ codes " from " ++ table ++ codes ";";
      select_limit = codes "select " ++ names ++ codes " from " ++ table ++ codes " limit %u, %u;";
      select_count = codes "select count(*) as num from " ++ table ++ codes ";";
      select_where =
          codes "select "
          ++ names
          ++ codes " from "
          ++ table
          ++ codes " where "
          ++ where_text
          ++ codes ";";
      update =
          codes "update "
          ++ table
          ++ codes " set "
          ++ piece_loop (λ f. codes "set " ++ f.name ++ codes "=" ++ format f.field_type) 0 fields
          ++ codes " where "
          ++ where_text
          ++ codes ";";
      insert =
          codes "insert into "
          ++ table
          ++ codes " ("
          ++ names
          ++ codes ") values("
          ++ piece_loop (λ f. format f.field_type) 0 fields
          ++ codes ")";
    }

-- The texts with ", " between them.
pub join : List Text → Text
join [] = []
join (t ∷ []) = t
join (t ∷ u ∷ ts) = t ++ (codes ", " ++ join (u ∷ ts))

comma_later : (i : ℕ) → 0 < i → (if ltb 0 i then codes ", " else []) ≡ codes ", "
comma_later i p = ground (arith, p)

piece_loop-later :
    (piece : SqlField → Text) (i : ℕ) (f : SqlField) (fs : List SqlField)
    → 0 < i
    → piece_loop piece i (f ∷ fs) ≡ codes ", " ++ join (map piece (f ∷ fs))
unfolding piece_loop join
piece_loop-later piece i f [] p =
    let first = comma_later i p in
    ap (λ t. t ++ (piece f ++ [])) first ∙ ap (λ t. codes ", " ++ t) (append_nil (piece f))
piece_loop-later piece i f (g ∷ fs) p =
    let first = comma_later i p in
    ap (λ t. t ++ (piece f ++ piece_loop piece (i + 1) (g ∷ fs))) first
    ∙ ap (λ t. codes ", " ++ (piece f ++ t)) (piece_loop-later piece (i + 1) g fs (omega arith))

pub piece_loop-join :
    (piece : SqlField → Text) (fs : List SqlField) → piece_loop piece 0 fs ≡ join (map piece fs)
unfolding piece_loop join
piece_loop-join piece [] = refl
piece_loop-join piece (f ∷ []) = append_nil (piece f)
piece_loop-join piece (f ∷ g ∷ fs) =
    ap (λ t. piece f ++ t) (piece_loop-later piece 1 g fs (omega arith))
