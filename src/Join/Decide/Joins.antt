-- ===== src/Join/Decide/Joins.antt =====
-- The joins that `decide_join_mode` specialises
-- (crates/tt-core/src/irs/nodes/plan/lps/join/modes.rs).
use mathlib.Core.Path.{subst}
use truth_table.Common.{ℕ, ◌≡◌, ◌≢◌, refl, ◌∙◌, List, some, true, String, length, get_elem?, arith}
use truth_table.Datafusion.Host.{Host}
use truth_table.Datafusion.Enums.{JoinType}
use truth_table.Datafusion.Plans.{Column, Expr, ExprPairs, OptExpr, LogicalPlan}
use truth_table.Codec.Enums.{JoinMode}
use truth_table.Join.Constraints.{Library, TableConstraint, ColumnConstraintMetadata}
use truth_table.Join.Modes.{Plans}
use truth_table.Join.Decide.{Side, pairs_length, decide_join_mode}
use truth_table.Join.Decide.Under.{NoFilterIn, has_filter_in_subtree-NoFilterIn}
use truth_table.Join.Decide.Collected.{
  pairs_of, HasMeta, left_names, right_names, names_in, collect_keys-Collects,
}
use truth_table.Join.Decide.Refers.{RefersTo, all_metas_pk-at, is_fk_to-RefersTo}
use truth_table.Join.Decide.Guards.{KeysFit, decide_join_mode-GuardedJoin}

module _ {h : Host} (lib : Library) (by_table : List (String × TableConstraint)) (ps : Plans h)
    (left right : LogicalPlan h) (on : ExprPairs h) where
  -- what is known of the columns of a pair
  abbrev pub PairFits : JoinMode → ColumnConstraintMetadata → ColumnConstraintMetadata → Type 0
  PairFits JoinMode.one_to_many lm rm =
      (lm.is_pk ≡ true) × RefersTo lib rm (left_names lib by_table (pairs_of on))
  PairFits JoinMode.many_to_one lm rm =
      (rm.is_pk ≡ true) × RefersTo lib lm (right_names lib by_table (pairs_of on))
  PairFits JoinMode.one_to_one lm rm = (lm.is_pk ≡ true) × (rm.is_pk ≡ true)
  PairFits JoinMode.many_to_many lm rm = Unit

  abbrev pub PlansFit : JoinMode → Type 0
  PlansFit JoinMode.one_to_many = NoFilterIn ps left
  PlansFit JoinMode.many_to_one = NoFilterIn ps right
  PlansFit JoinMode.one_to_one =
      (length (pairs_of on) ≡ 1) × NoFilterIn ps left × NoFilterIn ps right
  PlansFit JoinMode.many_to_many = Unit

  -- at each place of the list, a pair of columns of which constraints are found, and that fit
  abbrev pub PairsFit : JoinMode → Type 0
  PairsFit mode =
      (i : ℕ) (l r : Expr h)
      → get_elem? (pairs_of on) i ≡ some (l, r)
      → (lc rc : Column h) × (lm rm : ColumnConstraintMetadata) × HasMeta lib by_table
          (ps.schema_fields left) l lc lm
        × HasMeta lib by_table (ps.schema_fields right) r rc rm
        × PairFits mode lm rm

  abbrev pub SpecialisedJoin : OptExpr h → JoinType → JoinMode → Type 0
  SpecialisedJoin filter join_type mode =
      (join_type ≡ JoinType.inner)
      × (on ≢ ExprPairs.no_pairs)
      × (filter ≡ OptExpr.absent)
      × PlansFit mode
      × PairsFit mode

  length-pairs_of : (on' : ExprPairs h) → length (pairs_of on') ≡ pairs_length h lib by_table ps on'
  length-pairs_of ExprPairs.no_pairs = refl
  length-pairs_of (ExprPairs.pair l r pairs) = omega (arith, length-pairs_of pairs)

  plans_fit :
      (mode : JoinMode) (l r : Side h)
      → KeysFit lib by_table ps left right (pairs_length h lib by_table ps on) l r mode
      → PlansFit mode
  plans_fit JoinMode.one_to_many l r fit = has_filter_in_subtree-NoFilterIn ps fit.2
  plans_fit JoinMode.many_to_one l r fit = has_filter_in_subtree-NoFilterIn ps fit.2
  plans_fit JoinMode.one_to_one l r (one, lp, rp, lf, rf) = (
    length-pairs_of on ∙ one,
    has_filter_in_subtree-NoFilterIn ps lf,
    has_filter_in_subtree-NoFilterIn ps rf,
  )
  plans_fit JoinMode.many_to_many l r fit = tt

  pair_fits :
      (mode : JoinMode) (l r : Side h) (i : ℕ) {lm rm : ColumnConstraintMetadata}
      → KeysFit lib by_table ps left right (pairs_length h lib by_table ps on) l r mode
      → names_in lib by_table l.cols ≡ left_names lib by_table (pairs_of on)
      → names_in lib by_table r.cols ≡ right_names lib by_table (pairs_of on)
      → get_elem? l.metas i ≡ some lm
      → get_elem? r.metas i ≡ some rm
      → PairFits mode lm rm
  pair_fits JoinMode.one_to_many l r i {rm = rm} (pk, fk, no_filter) ln rn el er = (
    all_metas_pk-at l.metas i pk el,
    subst (RefersTo lib rm) ln (is_fk_to-RefersTo lib by_table ps r l i fk er),
  )
  pair_fits JoinMode.many_to_one l r i {lm = lm} (pk, fk, no_filter) ln rn el er = (
    all_metas_pk-at r.metas i pk er,
    subst (RefersTo lib lm) rn (is_fk_to-RefersTo lib by_table ps l r i fk el),
  )
  pair_fits JoinMode.one_to_one l r i (one, lp, rp, lf, rf) ln rn el er =
      (all_metas_pk-at l.metas i lp el, all_metas_pk-at r.metas i rp er)
  pair_fits JoinMode.many_to_many l r i fit ln rn el er = tt

  -- A join whose mode is not many-to-many is an inner join on at least one pair of keys, without a
  -- filter. Each key of each pair is a column, perhaps renamed or cast, of which constraints are
  -- found. One-to-many: each key on the left is of a primary key, and each on the right refers to
  -- just the columns on the left, by their names in lower case; neither the left plan nor any plan
  -- below it is a filter, nor one of another kind that is said to have a filter. Many-to-one: the
  -- same with the sides swapped. One-to-one: there is one pair of keys, both are of a primary key,
  -- and both plans are free of filters in this sense.
  pub decide_join_mode-SpecialisedJoin :
      (filter : OptExpr h) (join_type : JoinType)
      → (decide_join_mode h lib by_table ps left right on filter join_type ≢ JoinMode.many_to_many)
      → SpecialisedJoin filter join_type
          (decide_join_mode h lib by_table ps left right on filter join_type)
  decide_join_mode-SpecialisedJoin filter join_type special =
      let mode = decide_join_mode h lib by_table ps left right on filter join_type in
      let (inner, some_pair, no_filter, ((l, r), collected, fit)) =
        decide_join_mode-GuardedJoin lib by_table ps left right on filter join_type special in
      let (places, (ln, rn)) =
        collect_keys-Collects lib by_table ps (ps.schema_fields left) (ps.schema_fields right) on
          collected in
      (
        inner,
        some_pair,
        no_filter,
        plans_fit mode l r fit,
        (λ i le re found.
            let (lc, rc, lm, rm, lk, rk, el, er) = places i le re found in
            (lc, rc, lm, rm, lk, rk, pair_fits mode l r i fit ln rn el er)),
      )
