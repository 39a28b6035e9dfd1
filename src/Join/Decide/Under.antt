-- ===== src/Join/Decide/Under.antt =====
-- The plans below a plan, and what `has_filter_in_subtree`
-- (crates/tt-core/src/irs/nodes/plan/lps/join/modes.rs) says of them.
use truth_table.Common.{◌≡◌, refl, ◌⊎◌, inl, inr, Bool, true, false, ◌||◌}
use truth_table.Datafusion.Host.{Host}
use truth_table.Datafusion.Plans.{LogicalPlan}
use truth_table.Join.Modes.{Plans, has_filter_in_subtree}

module _ {h : Host} where
  -- `q` is an input of a plan
  abbrev pub IsInput : LogicalPlan h → LogicalPlan h → Type 0
  IsInput q (LogicalPlan.projection es p schema) = p ≡ q
  IsInput q (LogicalPlan.filter e p having) = p ≡ q
  IsInput q (LogicalPlan.aggregate p group aggr schema) = p ≡ q
  IsInput q (LogicalPlan.sort sorts p fetch) = p ≡ q
  IsInput q (LogicalPlan.join left right on filter t c schema null_eq) = (left ≡ q) ⊎ (right ≡ q)
  IsInput q (LogicalPlan.subquery_alias p name schema) = p ≡ q
  IsInput q (LogicalPlan.limit skip fetch p) = p ≡ q
  IsInput q (LogicalPlan.rematerialize p) = p ≡ q
  IsInput q (LogicalPlan.result_check p) = p ≡ q
  IsInput q _ = ⊥

  -- `r` is the plan or below it
  pub data Under (r : LogicalPlan h) : LogicalPlan h → Type 0 where
    here : Under r r
    below : {p q : LogicalPlan h} → IsInput q p → Under r q → Under r p

  module _ (ps : Plans h) where
    -- a plan that is no filter, and if it is not taken apart, has none in its inputs
    abbrev pub NoFilter : LogicalPlan h → Type 0
    NoFilter (LogicalPlan.filter e p having) = ⊥
    NoFilter (LogicalPlan.other_plan o) = ps.other_has_filter o ≡ false
    NoFilter _ = Unit

    abbrev pub NoFilterIn : LogicalPlan h → Type 0
    NoFilterIn p = (r : LogicalPlan h) → Under r p → NoFilter r

    either : (a b : Bool) → (a || b) ≡ false → (a ≡ false) × (b ≡ false)
    either true b e = cc
    either false b e = (refl, e)

    input_is_free :
        (p q : LogicalPlan h)
        → has_filter_in_subtree ps p ≡ false
        → IsInput q p
        → has_filter_in_subtree ps q ≡ false
    unfolding has_filter_in_subtree
    input_is_free (LogicalPlan.table_scan n s p f l c) q e i = absurd i
    input_is_free (LogicalPlan.projection es p schema) q e i = rw (← i) e
    input_is_free (LogicalPlan.filter f p having) q e i = cc
    input_is_free (LogicalPlan.aggregate p group aggr schema) q e i = rw (← i) e
    input_is_free (LogicalPlan.sort sorts p fetch) q e i = rw (← i) e
    input_is_free (LogicalPlan.join left right on filter t c schema null_eq) q e (inl i) =
        rw (← i) (either _ _ e).0
    input_is_free (LogicalPlan.join left right on filter t c schema null_eq) q e (inr i) =
        rw (← i) (either _ _ e).1
    input_is_free (LogicalPlan.subquery_alias p name schema) q e i = rw (← i) e
    input_is_free (LogicalPlan.limit skip fetch p) q e i = rw (← i) e
    input_is_free (LogicalPlan.rematerialize p) q e i = rw (← i) e
    input_is_free (LogicalPlan.result_check p) q e i = rw (← i) e
    input_is_free (LogicalPlan.other_plan o) q e i = absurd i

    free_here : (p : LogicalPlan h) → has_filter_in_subtree ps p ≡ false → NoFilter p
    unfolding has_filter_in_subtree
    free_here (LogicalPlan.filter e p having) free = cc
    free_here (LogicalPlan.other_plan o) free = free
    free_here _ free = tt

    free_below :
        (r : LogicalPlan h) {p : LogicalPlan h}
        → Under r p
        → has_filter_in_subtree ps p ≡ false
        → NoFilter r
    free_below r here free = free_here r free
    free_below r (below {p = p} {q = q} i u) free = free_below r u (input_is_free p q free i)

    pub has_filter_in_subtree-NoFilterIn :
        {p : LogicalPlan h} → has_filter_in_subtree ps p ≡ false → NoFilterIn p
    has_filter_in_subtree-NoFilterIn free r u = free_below r u free
