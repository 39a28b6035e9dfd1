-- ===== src/Join/Decide.antt =====
-- `decide_join_mode` itself (crates/tt-core/src/irs/nodes/plan/lps/join/modes.rs).
pub mod Under
pub mod Guards
pub mod Collected
pub mod Refers
pub mod Joins
use truth_table.Common.{
  ℕ, ◌+◌, List, [], ◌∷◌, Option, none, some, map, Bool, true, false, not, ◌&&◌, ◌||◌, if◌then◌else◌,
  String, ◌==◌,
}
use truth_table.Datafusion.Host.{Host}
use truth_table.Datafusion.Arrow.{Field}
use truth_table.Datafusion.Enums.{JoinType}
use truth_table.Datafusion.Plans.{Column, Expr, ExprPairs, OptExpr, LogicalPlan}
use truth_table.Codec.Enums.{JoinMode}
use truth_table.Join.Constraints.{Library, TableConstraint, ColumnConstraintMetadata, name_set}
use truth_table.Join.Modes.{
  Plans, expr_to_column, has_filter_in_subtree, resolve_constraint_metadata, table_name_from_column,
  all_metas_pk, all_columns_form_fk_to_table, all_columns_form_fk_to_column_set,
}

-- what the loop over the pairs of keys collects of one side
pub record Side (h : Host) : Type 0 where
  pub cols : List (Column h)
  pub metas : List ColumnConstraintMetadata

abbrev pub is_inner : JoinType → Bool
is_inner JoinType.inner = true
is_inner _ = false

module _ (h : Host) (lib : Library) (by_table : List (String × TableConstraint))
    (ps : Plans h) where
  -- the column of a key and what is known of it, if there is anything
  abbrev pub key_of :
      List (Option h.TableReference × Field h)
      → Expr h
      → Option (Column h × ColumnConstraintMetadata)
  unfolding expr_to_column resolve_constraint_metadata table_name_from_column
  key_of fields e = elim (expr_to_column e) [
    | none ↦ none
    | some c ↦
        elim (resolve_constraint_metadata h lib by_table fields c
          (table_name_from_column h lib c)) [ none ↦ none | some meta ↦ some (c, meta) ]
  ]

  abbrev pub add_key :
      Option (Column h × ColumnConstraintMetadata)
      → Option (Column h × ColumnConstraintMetadata)
      → Option (Side h × Side h)
      → Option (Side h × Side h)
  add_key none r rest = none
  add_key (some l) none rest = none
  add_key (some l) (some r) none = none
  add_key (some (lc, lm)) (some (rc, rm)) (some (left, right)) = some (
    record { cols = lc ∷ left.cols; metas = lm ∷ left.metas },
    record { cols = rc ∷ right.cols; metas = rm ∷ right.metas },
  )

  unfoldable pub collect_keys :
      List (Option h.TableReference × Field h)
      → List (Option h.TableReference × Field h)
      → ExprPairs h
      → Option (Side h × Side h)
  unfolding key_of
  collect_keys left_fields right_fields ExprPairs.no_pairs =
      some (record { cols = []; metas = [] }, record { cols = []; metas = [] })
  collect_keys left_fields right_fields (ExprPairs.pair l r pairs) =
      add_key (key_of left_fields l) (key_of right_fields r)
        (collect_keys left_fields right_fields pairs)

  abbrev pub column_name_set : List (Column h) → List String
  column_name_set cols = name_set (map (λ c. lib.to_lowercase c.name) cols)

  abbrev tables_of : List (Column h) → List String
  unfolding table_name_from_column
  tables_of [] = []
  tables_of (c ∷ cs) = elim (table_name_from_column h lib c) [
    | none ↦ tables_of cs
    | some t ↦ t ∷ tables_of cs
  ]

  abbrev only : List String → Option String
  only (t ∷ []) = some t
  only _ = none

  abbrev unique_table_name : List (Column h) → Option String
  unfolding tables_of
  unique_table_name cols = only (name_set (tables_of cols))

  -- whether the columns of the first side are a foreign key into those of the second
  unfoldable pub is_fk_to : Side h → Side h → Bool
  unfolding unique_table_name all_columns_form_fk_to_table all_columns_form_fk_to_column_set
  is_fk_to from to =
      all_columns_form_fk_to_table lib from.metas (unique_table_name to.cols)
        (column_name_set to.cols)
      || all_columns_form_fk_to_column_set lib from.metas (column_name_set to.cols)

  unfoldable pub mode_of_keys : LogicalPlan h → LogicalPlan h → ℕ → Side h × Side h → JoinMode
  unfolding is_fk_to has_filter_in_subtree
  mode_of_keys left right on_len (l, r) =
      if all_metas_pk l.metas && is_fk_to r l
      then (if has_filter_in_subtree ps left then JoinMode.many_to_many else JoinMode.one_to_many)
      else if all_metas_pk r.metas && is_fk_to l r
      then (if has_filter_in_subtree ps right then JoinMode.many_to_many else JoinMode.many_to_one)
      else if on_len == 1 && (all_metas_pk l.metas && all_metas_pk r.metas)
      then (if has_filter_in_subtree ps left || has_filter_in_subtree ps right
          then JoinMode.many_to_many
          else JoinMode.one_to_one)
      else JoinMode.many_to_many

  abbrev pub pairs_length : ExprPairs h → ℕ
  pairs_length ExprPairs.no_pairs = 0
  pairs_length (ExprPairs.pair l r pairs) = 1 + pairs_length pairs

  abbrev pub is_present : OptExpr h → Bool
  is_present OptExpr.absent = false
  is_present (OptExpr.present e) = true

  unfoldable pub mode_of : LogicalPlan h → LogicalPlan h → ℕ → Option (Side h × Side h) → JoinMode
  unfolding mode_of_keys
  mode_of left right on_len none = JoinMode.many_to_many
  mode_of left right on_len (some keys) = mode_of_keys left right on_len keys

  unfoldable pub decide_join_mode :
      LogicalPlan h → LogicalPlan h → ExprPairs h → OptExpr h → JoinType → JoinMode
  unfolding collect_keys mode_of
  decide_join_mode left right on filter join_type =
      if not (is_inner join_type)
      then JoinMode.many_to_many
      else if pairs_length on == 0 || is_present filter
      then JoinMode.many_to_many
      else mode_of left right (pairs_length on)
          (collect_keys (ps.schema_fields left) (ps.schema_fields right) on)
