-- ===== src/Join/Modes.antt =====
-- `decide_join_mode` (crates/tt-core/src/irs/nodes/plan/lps/join/modes.rs).
use truth_table.Common.{
  List, [], ◌∷◌, Option, none, some, map, Bool, true, false, ◌&&◌, ◌||◌, if◌then◌else◌, String,
}
use truth_table.Datafusion.Host.{Host}
use truth_table.Datafusion.Arrow.{Field}
use truth_table.Datafusion.Plans.{Column, Expr, LogicalPlan}
use truth_table.Join.Text.{same_text, table_name_from_qualifier, eq_ignore_ascii_case}
use truth_table.Join.Constraints.{
  Library, TableConstraint, ColumnConstraintMetadata, name_set, find_name,
  column_constraint_metadata, pk_metadata_key, fk_ref_table_metadata_key,
  fk_ref_columns_metadata_key,
}

-- What is called of DataFusion: the fields of a plan's schema with their qualifiers, and whether a plan
-- that the program does not take apart has a filter in its inputs.
pub record Plans (h : Host) : Type 0 where
  pub schema_fields : LogicalPlan h → List (Option h.TableReference × Field h)
  pub other_has_filter : h.OtherPlan → Bool

abbrev qualifier_metadata_key : String
qualifier_metadata_key = "tt.qualifier"

module _ {h : Host} where
  unfoldable pub expr_to_column : Expr h → Option (Column h)
  expr_to_column (Expr.column c) = some c
  expr_to_column (Expr.alias e relation name) = expr_to_column e
  expr_to_column (Expr.cast e t) = expr_to_column e
  expr_to_column (Expr.try_cast e t) = expr_to_column e
  expr_to_column _ = none

  unfoldable pub has_filter_in_subtree : Plans h → LogicalPlan h → Bool
  has_filter_in_subtree ps (LogicalPlan.table_scan name source projection filters fetch schema) =
      false
  has_filter_in_subtree ps (LogicalPlan.projection es p schema) = has_filter_in_subtree ps p
  has_filter_in_subtree ps (LogicalPlan.filter e p having) = true
  has_filter_in_subtree ps (LogicalPlan.aggregate p group aggr schema) = has_filter_in_subtree ps p
  has_filter_in_subtree ps (LogicalPlan.sort sorts p fetch) = has_filter_in_subtree ps p
  has_filter_in_subtree ps (LogicalPlan.join left right on filter t c schema null_eq) =
      has_filter_in_subtree ps left || has_filter_in_subtree ps right
  has_filter_in_subtree ps (LogicalPlan.subquery_alias p name schema) = has_filter_in_subtree ps p
  has_filter_in_subtree ps (LogicalPlan.limit skip fetch p) = has_filter_in_subtree ps p
  has_filter_in_subtree ps (LogicalPlan.rematerialize p) = has_filter_in_subtree ps p
  has_filter_in_subtree ps (LogicalPlan.result_check p) = has_filter_in_subtree ps p
  has_filter_in_subtree ps (LogicalPlan.other_plan o) = ps.other_has_filter o

abbrev pub is_true : Option String → Bool
unfolding eq_ignore_ascii_case
is_true none = false
is_true (some v) = eq_ignore_ascii_case v "true"

abbrev pub parsed : Library → Option String → List String
parsed lib none = []
parsed lib (some raw) = elim (lib.strings_from_json raw) [ none ↦ [] | some names ↦ names ]

-- no constraint where nothing is said
abbrev pub unless_empty : ColumnConstraintMetadata → Option ColumnConstraintMetadata
unless_empty m = elim m.fk_ref_table [
  | some t ↦ some m
  | none ↦ elim m.fk_ref_columns [ [] ↦ if m.is_pk then some m else none | n ∷ ns ↦ some m ]
]

-- the names of the columns that a column refers to, as a set
abbrev pub fk_ref_column_set : Library → ColumnConstraintMetadata → List String
fk_ref_column_set lib meta = name_set (map lib.to_lowercase meta.fk_ref_columns)

abbrev pub same_names : List String → List String → Bool
same_names [] [] = true
same_names (m ∷ ms) (n ∷ ns) = same_text m n && same_names ms ns
same_names _ _ = false

abbrev pub refers_to_table : Option String → String → Bool
unfolding eq_ignore_ascii_case
refers_to_table none other = false
refers_to_table (some ref_table) other = eq_ignore_ascii_case ref_table other

abbrev pub all_refer : Library → List ColumnConstraintMetadata → List String → Bool
all_refer lib [] others = true
all_refer lib (m ∷ ms) others =
    same_names (fk_ref_column_set lib m) others && all_refer lib ms others

unfoldable pub all_refer_to : Library → List ColumnConstraintMetadata → String → List String → Bool
unfolding refers_to_table
all_refer_to lib [] table others = true
all_refer_to lib (m ∷ ms) table others =
    refers_to_table m.fk_ref_table table
    && same_names (fk_ref_column_set lib m) others
    && all_refer_to lib ms table others

abbrev pub any_meta : List ColumnConstraintMetadata → Bool
any_meta [] = false
any_meta (m ∷ ms) = true

unfoldable pub all_columns_form_fk_to_table :
    Library → List ColumnConstraintMetadata → Option String → List String → Bool
unfolding all_refer_to
all_columns_form_fk_to_table lib metas none others = false
all_columns_form_fk_to_table lib metas (some table) others =
    any_meta metas && all_refer_to lib metas table others

unfoldable pub all_columns_form_fk_to_column_set :
    Library → List ColumnConstraintMetadata → List String → Bool
all_columns_form_fk_to_column_set lib metas others = any_meta metas && all_refer lib metas others

abbrev pub all_metas_pk : List ColumnConstraintMetadata → Bool
all_metas_pk [] = true
all_metas_pk (m ∷ ms) = m.is_pk && all_metas_pk ms

module _ (h : Host) (lib : Library) where
  unfoldable pub table_name_from_relation : h.TableReference → String
  unfolding table_name_from_qualifier
  table_name_from_relation relation =
      table_name_from_qualifier lib.to_lowercase (h.reference_to_string relation)

  unfoldable pub table_name_from_column : Column h → Option String
  unfolding table_name_from_relation
  table_name_from_column c = elim c.relation [
    | none ↦ none
    | some relation ↦ some (table_name_from_relation relation)
  ]

  -- the qualifier that a field's metadata names
  abbrev pub qualifier_is : Option String → String → Bool
  unfolding table_name_from_qualifier
  qualifier_is none rel_name = false
  qualifier_is (some q) rel_name = same_text (table_name_from_qualifier lib.to_lowercase q) rel_name

  -- whether a field of a schema, whose name fits, is the one that the column names
  abbrev pub is_field_of : Option h.TableReference → Option h.TableReference → h.Metadata → Bool
  unfolding table_name_from_relation qualifier_is
  is_field_of none q metadata = true
  is_field_of (some rel) none metadata =
      qualifier_is (find_name qualifier_metadata_key (h.metadata_iter metadata))
        (table_name_from_relation rel)
  is_field_of (some rel) (some q) metadata =
      same_text (table_name_from_relation rel) (table_name_from_relation q)
      || qualifier_is (find_name qualifier_metadata_key (h.metadata_iter metadata))
          (table_name_from_relation rel)

  -- `find_map` over the fields of the schema: the metadata of the first field that fits
  abbrev pub find_field : List (Option h.TableReference × Field h) → Column h → Option h.Metadata
  unfolding is_field_of
  find_field [] c = none
  find_field ((q, Field.field name t nullable metadata) ∷ fields) c =
      let rest = find_field fields c in
      if same_text name c.name && is_field_of c.relation q metadata then some metadata else rest

  abbrev pub metadata_from : Option h.Metadata → Option ColumnConstraintMetadata
  unfolding is_true
  metadata_from none = none
  metadata_from (some metadata) =
      let entries = h.metadata_iter metadata in
      unless_empty (record {
        is_pk = is_true (find_name pk_metadata_key entries);
        fk_ref_table = find_name fk_ref_table_metadata_key entries;
        fk_ref_columns = parsed lib (find_name fk_ref_columns_metadata_key entries);
      })

  unfoldable pub constraint_metadata_from_field :
      List (Option h.TableReference × Field h) → Column h → Option ColumnConstraintMetadata
  unfolding find_field metadata_from
  constraint_metadata_from_field fields c = metadata_from (find_field fields c)

  module _ (by_table : List (String × TableConstraint)) where
    abbrev pub from_table : Option String → String → Option ColumnConstraintMetadata
    unfolding column_constraint_metadata table_name_from_qualifier
    from_table none name = none
    from_table (some table) name =
        column_constraint_metadata lib by_table (table_name_from_qualifier lib.to_lowercase table)
          name

    abbrev pub or_meta :
        Option ColumnConstraintMetadata
        → Option ColumnConstraintMetadata
        → Option ColumnConstraintMetadata
    or_meta none b = b
    or_meta (some a) b = some a

    unfoldable pub resolve_constraint_metadata :
        List (Option h.TableReference × Field h)
        → Column h
        → Option String
        → Option ColumnConstraintMetadata
    unfolding constraint_metadata_from_field from_table
    resolve_constraint_metadata fields c fallback_table =
        or_meta (constraint_metadata_from_field fields c) (from_table fallback_table c.name)
