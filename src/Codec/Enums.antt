-- ===== src/Codec/Enums.antt =====
-- `OperatorRepr`, `JoinTypeRepr`, `JoinConstraintRepr` and `JoinModeRepr` of
-- crates/tt-core/src/irs/codec.rs, with `JoinMode` of crates/tt-core/src/irs/nodes/plan/lps/join/modes.rs.
use truth_table.Common.{◌≡◌, refl}
use truth_table.Datafusion.Enums.{Operator, JoinType, JoinConstraint}

pub data JoinMode : Type 0 where
  one_to_many many_to_one one_to_one many_to_many : JoinMode

pub data OperatorRepr : Type 0 where
  eq not_eq lt lt_eq gt gt_eq plus minus multiply divide modulo and or : OperatorRepr
  is_distinct_from is_not_distinct_from bitwise_and bitwise_or bitwise_xor : OperatorRepr
  bitwise_shift_right bitwise_shift_left regex_match regex_i_match regex_not_match : OperatorRepr
  regex_not_i_match like_match i_like_match not_like_match not_i_like_match : OperatorRepr
  string_concat at_arrow arrow_at : OperatorRepr

pub data JoinTypeRepr : Type 0 where
  inner left right full left_semi right_semi left_anti right_anti left_mark : JoinTypeRepr

pub data JoinConstraintRepr : Type 0 where
  on using : JoinConstraintRepr

pub data JoinModeRepr : Type 0 where
  one_to_many many_to_one one_to_one many_to_many : JoinModeRepr

unfoldable pub from_operator : Operator → OperatorRepr
from_operator Operator.eq = OperatorRepr.eq
from_operator Operator.not_eq = OperatorRepr.not_eq
from_operator Operator.lt = OperatorRepr.lt
from_operator Operator.lt_eq = OperatorRepr.lt_eq
from_operator Operator.gt = OperatorRepr.gt
from_operator Operator.gt_eq = OperatorRepr.gt_eq
from_operator Operator.plus = OperatorRepr.plus
from_operator Operator.minus = OperatorRepr.minus
from_operator Operator.multiply = OperatorRepr.multiply
from_operator Operator.divide = OperatorRepr.divide
from_operator Operator.modulo = OperatorRepr.modulo
from_operator Operator.and = OperatorRepr.and
from_operator Operator.or = OperatorRepr.or
from_operator Operator.is_distinct_from = OperatorRepr.is_distinct_from
from_operator Operator.is_not_distinct_from = OperatorRepr.is_not_distinct_from
from_operator Operator.bitwise_and = OperatorRepr.bitwise_and
from_operator Operator.bitwise_or = OperatorRepr.bitwise_or
from_operator Operator.bitwise_xor = OperatorRepr.bitwise_xor
from_operator Operator.bitwise_shift_right = OperatorRepr.bitwise_shift_right
from_operator Operator.bitwise_shift_left = OperatorRepr.bitwise_shift_left
from_operator Operator.regex_match = OperatorRepr.regex_match
from_operator Operator.regex_i_match = OperatorRepr.regex_i_match
from_operator Operator.regex_not_match = OperatorRepr.regex_not_match
from_operator Operator.regex_not_i_match = OperatorRepr.regex_not_i_match
from_operator Operator.like_match = OperatorRepr.like_match
from_operator Operator.i_like_match = OperatorRepr.i_like_match
from_operator Operator.not_like_match = OperatorRepr.not_like_match
from_operator Operator.not_i_like_match = OperatorRepr.not_i_like_match
from_operator Operator.string_concat = OperatorRepr.string_concat
from_operator Operator.at_arrow = OperatorRepr.at_arrow
from_operator Operator.arrow_at = OperatorRepr.arrow_at

unfoldable pub to_operator : OperatorRepr → Operator
to_operator OperatorRepr.eq = Operator.eq
to_operator OperatorRepr.not_eq = Operator.not_eq
to_operator OperatorRepr.lt = Operator.lt
to_operator OperatorRepr.lt_eq = Operator.lt_eq
to_operator OperatorRepr.gt = Operator.gt
to_operator OperatorRepr.gt_eq = Operator.gt_eq
to_operator OperatorRepr.plus = Operator.plus
to_operator OperatorRepr.minus = Operator.minus
to_operator OperatorRepr.multiply = Operator.multiply
to_operator OperatorRepr.divide = Operator.divide
to_operator OperatorRepr.modulo = Operator.modulo
to_operator OperatorRepr.and = Operator.and
to_operator OperatorRepr.or = Operator.or
to_operator OperatorRepr.is_distinct_from = Operator.is_distinct_from
to_operator OperatorRepr.is_not_distinct_from = Operator.is_not_distinct_from
to_operator OperatorRepr.bitwise_and = Operator.bitwise_and
to_operator OperatorRepr.bitwise_or = Operator.bitwise_or
to_operator OperatorRepr.bitwise_xor = Operator.bitwise_xor
to_operator OperatorRepr.bitwise_shift_right = Operator.bitwise_shift_right
to_operator OperatorRepr.bitwise_shift_left = Operator.bitwise_shift_left
to_operator OperatorRepr.regex_match = Operator.regex_match
to_operator OperatorRepr.regex_i_match = Operator.regex_i_match
to_operator OperatorRepr.regex_not_match = Operator.regex_not_match
to_operator OperatorRepr.regex_not_i_match = Operator.regex_not_i_match
to_operator OperatorRepr.like_match = Operator.like_match
to_operator OperatorRepr.i_like_match = Operator.i_like_match
to_operator OperatorRepr.not_like_match = Operator.not_like_match
to_operator OperatorRepr.not_i_like_match = Operator.not_i_like_match
to_operator OperatorRepr.string_concat = Operator.string_concat
to_operator OperatorRepr.at_arrow = Operator.at_arrow
to_operator OperatorRepr.arrow_at = Operator.arrow_at

unfoldable pub from_join_type : JoinType → JoinTypeRepr
from_join_type JoinType.inner = JoinTypeRepr.inner
from_join_type JoinType.left = JoinTypeRepr.left
from_join_type JoinType.right = JoinTypeRepr.right
from_join_type JoinType.full = JoinTypeRepr.full
from_join_type JoinType.left_semi = JoinTypeRepr.left_semi
from_join_type JoinType.right_semi = JoinTypeRepr.right_semi
from_join_type JoinType.left_anti = JoinTypeRepr.left_anti
from_join_type JoinType.right_anti = JoinTypeRepr.right_anti
from_join_type JoinType.left_mark = JoinTypeRepr.left_mark

unfoldable pub to_join_type : JoinTypeRepr → JoinType
to_join_type JoinTypeRepr.inner = JoinType.inner
to_join_type JoinTypeRepr.left = JoinType.left
to_join_type JoinTypeRepr.right = JoinType.right
to_join_type JoinTypeRepr.full = JoinType.full
to_join_type JoinTypeRepr.left_semi = JoinType.left_semi
to_join_type JoinTypeRepr.right_semi = JoinType.right_semi
to_join_type JoinTypeRepr.left_anti = JoinType.left_anti
to_join_type JoinTypeRepr.right_anti = JoinType.right_anti
to_join_type JoinTypeRepr.left_mark = JoinType.left_mark

unfoldable pub from_constraint : JoinConstraint → JoinConstraintRepr
from_constraint JoinConstraint.on = JoinConstraintRepr.on
from_constraint JoinConstraint.using = JoinConstraintRepr.using

unfoldable pub to_join_constraint : JoinConstraintRepr → JoinConstraint
to_join_constraint JoinConstraintRepr.on = JoinConstraint.on
to_join_constraint JoinConstraintRepr.using = JoinConstraint.using

unfoldable pub from_join_mode : JoinMode → JoinModeRepr
from_join_mode JoinMode.one_to_many = JoinModeRepr.one_to_many
from_join_mode JoinMode.many_to_one = JoinModeRepr.many_to_one
from_join_mode JoinMode.one_to_one = JoinModeRepr.one_to_one
from_join_mode JoinMode.many_to_many = JoinModeRepr.many_to_many

unfoldable pub to_join_mode : JoinModeRepr → JoinMode
to_join_mode JoinModeRepr.one_to_many = JoinMode.one_to_many
to_join_mode JoinModeRepr.many_to_one = JoinMode.many_to_one
to_join_mode JoinModeRepr.one_to_one = JoinMode.one_to_one
to_join_mode JoinModeRepr.many_to_many = JoinMode.many_to_many

-- Every operator that `from_operator` translates is given back by `to_operator`.
pub to_operator-from_operator : (x : Operator) → to_operator (from_operator x) ≡ x
unfolding from_operator to_operator
to_operator-from_operator Operator.eq = refl
to_operator-from_operator _ = refl

pub to_join_type-from_join_type : (x : JoinType) → to_join_type (from_join_type x) ≡ x
unfolding from_join_type to_join_type
to_join_type-from_join_type JoinType.inner = refl
to_join_type-from_join_type _ = refl

pub to_join_constraint-from_constraint :
    (x : JoinConstraint) → to_join_constraint (from_constraint x) ≡ x
unfolding from_constraint to_join_constraint
to_join_constraint-from_constraint JoinConstraint.on = refl
to_join_constraint-from_constraint _ = refl

pub to_join_mode-from_join_mode : (x : JoinMode) → to_join_mode (from_join_mode x) ≡ x
unfolding from_join_mode to_join_mode
to_join_mode-from_join_mode JoinMode.one_to_many = refl
to_join_mode-from_join_mode _ = refl
