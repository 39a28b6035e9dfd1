-- ===== src/Tests/JoinModes.antt =====
-- The modes of the joins of a tree, collected and applied.
use truth_table.Common.{
  ℕ, ◌≡◌, refl, List, [], ◌∷◌, Bool, true, false, ◌||◌, ◌==◌, if◌then◌else◌, length, arith,
}
use truth_table.Codec.Enums.{JoinMode, JoinModeRepr, from_join_mode}
use truth_table.Ir.Nodes.{Node, Nodes}
use truth_table.Ir.JoinModes.{Store, first_join_gadget, collect_join_modes, apply_join_modes}
use truth_table.Ir.JoinModes.RoundTrip.{collect-apply_join_modes}

-- a join of two tables whose left side is a join, each with its gadget
abbrev joins : Node Unit
joins = Node.plan 1 (
    Nodes.cons (Node.plan 2 (Nodes.cons (Node.gadget 3 tt Nodes.nil) Nodes.nil))
      (Nodes.cons (Node.plan 4 Nodes.nil) (Nodes.cons (Node.gadget 5 tt Nodes.nil) Nodes.nil)))

abbrev is_one_or_two : ℕ → Bool
is_one_or_two i = i == 1 || i == 2

abbrev one_to_many_at_3 : Store
one_to_many_at_3 = record {
  mode = λ i. if i == 3 then JoinMode.one_to_many else JoinMode.one_to_one;
  has_one = λ i. true;
}

abbrev many_to_many_everywhere : Store
many_to_many_everywhere = record { mode = λ i. JoinMode.many_to_many; has_one = λ i. false }

abbrev joins_modes : List JoinModeRepr
joins_modes = collect_join_modes is_one_or_two (λ g. true) one_to_many_at_3 joins []

joins_modes-value : joins_modes ≡ JoinModeRepr.one_to_one ∷ JoinModeRepr.one_to_many ∷ []
unfolding collect_join_modes from_join_mode first_join_gadget
joins_modes-value = refl

collect-apply_join_modes_example :
    (collect_join_modes is_one_or_two
        (λ g. true)
        (apply_join_modes is_one_or_two
          (λ g. true)
          joins_modes
          joins
          (many_to_many_everywhere, 0)).0
        joins
        []
      ≡ joins_modes)
    × ((apply_join_modes is_one_or_two (λ g. true) joins_modes joins (many_to_many_everywhere, 0)).1
        ≡ length joins_modes)
collect-apply_join_modes_example =
    collect-apply_join_modes is_one_or_two (λ g. true) one_to_many_at_3 many_to_many_everywhere
      joins (omega arith, ((omega arith, (tt, tt)), ((omega arith, tt), (tt, tt))))
