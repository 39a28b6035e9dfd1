-- ===== src/Join/Decide/Guards.antt =====
-- The tests that a join passes which `decide_join_mode` specialises
-- (crates/tt-core/src/irs/nodes/plan/lps/join/modes.rs).
use truth_table.Common.{
  ◌≡◌, ◌≢◌, refl, ◌∙◌, ℕ, ◌+◌, List, Option, none, some, Bool, true, false, ◌&&◌, ◌||◌,
  if◌then◌else◌, String, ◌==◌, ==_iff, arith,
}
use truth_table.Datafusion.Host.{Host}
use truth_table.Datafusion.Enums.{JoinType}
use truth_table.Datafusion.Plans.{Expr, ExprPairs, OptExpr, LogicalPlan}
use truth_table.Codec.Enums.{JoinMode}
use truth_table.Join.Constraints.{Library, TableConstraint}
use truth_table.Join.Modes.{Plans, has_filter_in_subtree, all_metas_pk}
use truth_table.Join.Decide.{
  Side, collect_keys, is_fk_to, mode_of_keys, mode_of, pairs_length, decide_join_mode,
}

one_key : (n : ℕ) → (n == 1) ≡ true → n ≡ 1
one_key n e = (==_iff n 1).0 e

one_more : (n : ℕ) → (1 + n == 0) ≡ false
one_more n = ground arith

-- a property of the mode that six tests choose
choose-P :
    (P : JoinMode → Type 0) (a f b g c k : Bool)
    → P JoinMode.many_to_many
    → (a ≡ true → f ≡ false → P JoinMode.one_to_many)
    → (b ≡ true → g ≡ false → P JoinMode.many_to_one)
    → (c ≡ true → k ≡ false → P JoinMode.one_to_one)
    → P (
        if a
        then (if f then JoinMode.many_to_many else JoinMode.one_to_many)
        else if b
        then (if g then JoinMode.many_to_many else JoinMode.many_to_one)
        else if c
        then (if k then JoinMode.many_to_many else JoinMode.one_to_one)
        else JoinMode.many_to_many)
choose-P P true true b g c k m x y z = m
choose-P P true false b g c k m x y z = x refl refl
choose-P P false f true true c k m x y z = m
choose-P P false f true false c k m x y z = y refl refl
choose-P P false f false g true true m x y z = m
choose-P P false f false g true false m x y z = z refl refl
choose-P P false f false g false k m x y z = m

both : (a b : Bool) → (a && b) ≡ true → (a ≡ true) × (b ≡ true)
both true b e = (refl, e)
both false b e = ground arith

neither : (a b : Bool) → (a || b) ≡ false → (a ≡ false) × (b ≡ false)
neither true b e = ground arith
neither false b e = (refl, e)

module _ {h : Host} (lib : Library) (by_table : List (String × TableConstraint))
    (ps : Plans h) where
  module _ (left right : LogicalPlan h) (on_len : ℕ) where
    -- what the keys of the two sides are, for each of the modes
    abbrev pub KeysFit : Side h → Side h → JoinMode → Type 0
    KeysFit l r JoinMode.one_to_many =
        (all_metas_pk l.metas ≡ true)
        × (is_fk_to h lib by_table ps r l ≡ true)
        × (has_filter_in_subtree ps left ≡ false)
    KeysFit l r JoinMode.many_to_one =
        (all_metas_pk r.metas ≡ true)
        × (is_fk_to h lib by_table ps l r ≡ true)
        × (has_filter_in_subtree ps right ≡ false)
    KeysFit l r JoinMode.one_to_one =
        (on_len ≡ 1)
        × (all_metas_pk l.metas ≡ true)
        × (all_metas_pk r.metas ≡ true)
        × (has_filter_in_subtree ps left ≡ false)
        × (has_filter_in_subtree ps right ≡ false)
    KeysFit l r JoinMode.many_to_many = Unit

    mode_of_keys-KeysFit :
        (l r : Side h) → KeysFit l r (mode_of_keys h lib by_table ps left right on_len (l, r))
    unfolding mode_of_keys
    mode_of_keys-KeysFit l r =
        let l_pk : Bool = all_metas_pk l.metas in
        let r_pk : Bool = all_metas_pk r.metas in
        let l_fk : Bool = is_fk_to h lib by_table ps l r in
        let r_fk : Bool = is_fk_to h lib by_table ps r l in
        let l_filter : Bool = has_filter_in_subtree ps left in
        let r_filter : Bool = has_filter_in_subtree ps right in
        choose-P (KeysFit l r) (l_pk && r_fk) l_filter (r_pk && l_fk) r_filter
          (on_len == 1 && (l_pk && r_pk)) (l_filter || r_filter) tt
          (λ e f. let (pk, fk) = both l_pk r_fk e in (pk, fk, f))
          (λ e f. let (pk, fk) = both r_pk l_fk e in (pk, fk, f))
          (λ e f.
            let (one, pks) = both (on_len == 1) (l_pk && r_pk) e in
            let (lp, rp) = both l_pk r_pk pks in
            let (lf, rf) = neither l_filter r_filter f in (one_key on_len one, lp, rp, lf, rf))

    -- the keys that the join has, and what they are for its mode
    abbrev pub KeysOf : ExprPairs h → JoinMode → Type 0
    KeysOf on mode =
        (keys : Side h × Side h) × (collect_keys h lib by_table ps (ps.schema_fields left)
            (ps.schema_fields right) on
          ≡ some keys)
        × KeysFit keys.0 keys.1 mode

  abbrev pub GuardedJoin :
      LogicalPlan h → LogicalPlan h → ExprPairs h → OptExpr h → JoinType → JoinMode → Type 0
  GuardedJoin left right on filter join_type mode =
      (join_type ≡ JoinType.inner)
      × (on ≢ ExprPairs.no_pairs)
      × (filter ≡ OptExpr.absent)
      × KeysOf left right (pairs_length h lib by_table ps on) on mode

  from_keys :
      (left right : LogicalPlan h) (n : ℕ) (on : ExprPairs h) (o : Option (Side h × Side h))
      → collect_keys h lib by_table ps (ps.schema_fields left) (ps.schema_fields right) on ≡ o
      → mode_of h lib by_table ps left right n o ≢ JoinMode.many_to_many
      → KeysOf left right n on (mode_of h lib by_table ps left right n o)
  unfolding mode_of
  from_keys left right n on none e special = absurd (special refl)
  from_keys left right n on (some (l, r)) e special =
      ((l, r), e, mode_of_keys-KeysFit left right n l r)

  decide-pair :
      (left right : LogicalPlan h) (l r : Expr h) (pairs : ExprPairs h)
      → decide_join_mode h lib by_table ps left right
          (ExprPairs.pair l r pairs)
          OptExpr.absent
          JoinType.inner
        ≡ mode_of h lib by_table ps left right (1 + pairs_length h lib by_table ps pairs) (
            collect_keys h lib by_table ps
              (ps.schema_fields left)
              (ps.schema_fields right)
              (ExprPairs.pair l r pairs))
  unfolding decide_join_mode
  decide-pair left right l r pairs = rw (one_more (pairs_length h lib by_table ps pairs)) refl

  specialised_keys :
      (left right : LogicalPlan h) (l r : Expr h) (pairs : ExprPairs h)
      → (let on = ExprPairs.pair l r pairs in
          let mode =
            decide_join_mode h lib by_table ps left right on OptExpr.absent JoinType.inner in
          mode ≢ JoinMode.many_to_many
          → KeysOf left right (pairs_length h lib by_table ps on) on mode)
  specialised_keys left right l r pairs special = rw (decide-pair left right l r pairs) (
      from_keys left right (pairs_length h lib by_table ps (ExprPairs.pair l r pairs)) _ _ refl
        (λ e. special (decide-pair left right l r pairs ∙ e)))

  -- the guards on the way to a mode that is not many-to-many
  pub decide_join_mode-GuardedJoin :
      (left right : LogicalPlan h) (on : ExprPairs h) (filter : OptExpr h) (join_type : JoinType)
      → (decide_join_mode h lib by_table ps left right on filter join_type ≢ JoinMode.many_to_many)
      → GuardedJoin left right on filter join_type
          (decide_join_mode h lib by_table ps left right on filter join_type)
  unfolding decide_join_mode
  decide_join_mode-GuardedJoin left right ExprPairs.no_pairs filter JoinType.inner special =
      absurd (special refl)
  decide_join_mode-GuardedJoin left right (ExprPairs.pair l r pairs) (OptExpr.present e)
        JoinType.inner special =
      absurd (special (rw (one_more (pairs_length h lib by_table ps pairs)) refl))
  decide_join_mode-GuardedJoin left right (ExprPairs.pair l r pairs) OptExpr.absent JoinType.inner
        special =
      (refl, (λ e. ground (arith, e)), refl, specialised_keys left right l r pairs special)
  decide_join_mode-GuardedJoin left right on filter _ special = absurd (special refl)
