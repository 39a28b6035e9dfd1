-- ===== src/Ir/PayloadPasses/Filled.antt =====
-- After gadget initialization, if it has not panicked, the nodes that it visits have payloads.
use truth_table.Common.{
  ℕ, ◌≡◌, refl, List, [], ◌∷◌, Option, none, some, true, false, ◌==◌, if◌then◌else◌, arith,
  Bool-cases, inl, inr,
}
use truth_table.Ir.Nodes.{Node}
use truth_table.Ir.Tree.{contains_key, get, insert, Arena}
use truth_table.Ir.Passes.{
  Ir, PayloadMap, LocalPass, flatten, or_else, payload_for_node, input_payload, transform_nodes,
  walk, apply_local_pass_sequential,
}
use truth_table.Ir.GadgetPasses.{PayloadStructure}
use truth_table.Ir.PayloadPasses.{
  empty_table, after_initialization, seeded, initialization_transform, gadget_initialization_pass,
}

pub get-insert :
    {A : Type 0} (j i : ℕ) (a : A) (m : List (ℕ × A))
    → get j (insert i a m) ≡ (if i == j then some a else get j m)
unfolding insert
get-insert j i a [] = refl
get-insert j i a ((l, b) ∷ m) = ground (arith, get-insert j i a m)

unfoldable pub IsSome : {A : Type 0} → Option A → Type 0
IsSome {A} o = (a : A) × (o ≡ some a)

or_else-IsSome : {A : Type 0} (a b : Option A) → IsSome b → IsSome (or_else a b)
unfolding IsSome
or_else-IsSome none b h = h
or_else-IsSome (some a) b h = (a, refl)

module _ {G P Q S : Type 0} (pass : LocalPass G P Q S) (ir : Ir G P) (IsAlive : S → Type 0) where
  -- A pass that is alive after a node was alive before it, and has made a payload for it.
  abbrev Fills : Type 0
  Fills =
      (n : Node G) (id : ℕ) (s : S)
      → IsAlive (pass.transform n id (input_payload pass ir n id) s).1
      → IsAlive s × IsSome (pass.transform n id (input_payload pass ir n id) s).0

  transform_nodes-IsAlive :
      (nodes : Arena G) (out : PayloadMap Q) (s : S)
      → Fills
      → IsAlive (transform_nodes pass ir nodes out s).1
      → IsAlive s
  unfolding transform_nodes
  transform_nodes-IsAlive [] out s fills alive = alive
  transform_nodes-IsAlive ((id, n) ∷ nodes) out s fills alive =
      (fills n id s (transform_nodes-IsAlive nodes _ _ fills alive)).0

  -- the nodes of the list get payloads, and payloads that are there stay
  transform_nodes-IsSome :
      (nodes : Arena G) (out : PayloadMap Q) (s : S) (j : ℕ)
      → Fills
      → IsAlive (transform_nodes pass ir nodes out s).1
      → (contains_key j nodes ≡ false → IsSome (flatten (get j out)))
      → IsSome (flatten (get j (transform_nodes pass ir nodes out s).0))
  unfolding transform_nodes
  transform_nodes-IsSome [] out s j fills alive there = there refl
  transform_nodes-IsSome ((id, n) ∷ nodes) out s j fills alive there =
      let done = pass.transform n id (input_payload pass ir n id) s in
      transform_nodes-IsSome nodes (insert id done.0 out) done.1 j fills alive (λ e.
        rw (get-insert j id done.0 out) (elim (Bool-cases (id == j)) [
          | inl q ↦ rw q (fills n id s (transform_nodes-IsAlive nodes _ _ fills alive)).1
          | inr q ↦ rw q (there (ground (arith, q, e)))
        ]))

module _ {A G T : Type 0} (default : T)
    (initialize_gadgets : Node G
      → ℕ
      → A × Ir G (PayloadStructure T)
      → Option (A × Ir G (PayloadStructure T)))
    (ir : Ir G (PayloadStructure T)) where
  initialization-Fills : Fills (gadget_initialization_pass default initialize_gadgets) ir IsSome
  unfolding gadget_initialization_pass initialization_transform IsSome
  initialization-Fills n id none alive = cc
  initialization-Fills n id (some (arg, view)) alive =
      go (initialize_gadgets n id (arg, seeded id payload view)) alive
    where
      payload : Option (PayloadStructure T)
      payload = or_else (payload_for_node ir id) (some (empty_table default))

      go :
          (o : Option (A × Ir G (PayloadStructure T)))
          → IsSome (after_initialization id payload o).1
          → IsSome {A = A × Ir G (PayloadStructure T)} (some (arg, view))
            × IsSome (after_initialization id payload o).0
      go none a = cc
      go (some (arg', view')) a = (
        ((arg, view), refl),
        or_else-IsSome (payload_for_node view' id) payload (
            or_else-IsSome (payload_for_node ir id) (some (empty_table default))
              (empty_table default, refl)),
      )

  -- If the gadget initialization pass does not panic, every node of the tree, as the walk from the
  -- root meets it, has a payload after it.
  pub gadget_initialization_pass-IsSome :
      (start : Option (A × Ir G (PayloadStructure T))) (id : ℕ)
      → IsSome
          (apply_local_pass_sequential
            (gadget_initialization_pass default initialize_gadgets)
            ir
            start).1
      → contains_key id (walk ir.tree.root) ≡ true
      → IsSome (
          payload_for_node
            (apply_local_pass_sequential
              (gadget_initialization_pass default initialize_gadgets)
              ir
              start).0
            id)
  unfolding apply_local_pass_sequential gadget_initialization_pass
  gadget_initialization_pass-IsSome start id alive there =
      transform_nodes-IsSome (gadget_initialization_pass default initialize_gadgets) ir IsSome
        (walk ir.tree.root) [] start id initialization-Fills alive
        (λ e. absurd (ground (arith, e, there)))
