-- ===== src/Datafusion/Enums.antt =====
-- The enumerations of DataFusion's plans: operators, join types and join constraints.
pub data Operator : Type 0 where
  eq not_eq lt lt_eq gt gt_eq plus minus multiply divide modulo and or : Operator
  is_distinct_from is_not_distinct_from bitwise_and bitwise_or bitwise_xor : Operator
  bitwise_shift_right bitwise_shift_left regex_match regex_i_match regex_not_match : Operator
  regex_not_i_match like_match i_like_match not_like_match not_i_like_match : Operator
  string_concat at_arrow arrow_at : Operator

pub data JoinType : Type 0 where
  inner left right full left_semi right_semi left_anti right_anti left_mark : JoinType

pub data JoinConstraint : Type 0 where
  on using : JoinConstraint
