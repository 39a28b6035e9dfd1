-- ===== src/Tests/Ir.antt =====
-- A tree of four nodes in which one gadget has three parents, and passes over it.
use mathlib.Core.List.{Permᴰ}
use truth_table.Common.{
  ℕ, ◌+◌, ◌≡◌, ◌↔◌, refl, List, [], ◌∷◌, Option, none, some, true, ◌==◌, if◌then◌else◌, String, ok,
  err,
}
use truth_table.Ir.Nodes.{Node, Nodes, has_id, AreStored}
use truth_table.Ir.Tree.{contains_key, Tree, build_arena}
use truth_table.Ir.Tree.Arena.{PostOrdered, AreDistinct}
use truth_table.Ir.Tree.Build.{build_arena_lem}
use truth_table.Ir.PayloadPasses.{
  virtualization_transform, virtualization_pass, initialization_transform,
  gadget_initialization_pass, seeded,
}
use truth_table.Ir.PayloadPasses.Filled.{IsSome, gadget_initialization_pass-IsSome}
use truth_table.Ir.Passes.{
  payload_for_node, transform_nodes, Ir, PassOrder, LocalPass, apply_local_pass_sequential,
  apply_local_pass_parallel, walk,
}
use truth_table.Ir.Passes.Parallel.{parallel-sequential, payloads_of}
use truth_table.Ir.GadgetPasses.{PayloadStructure, Step, new, proving_pass, honest_prover_pass}
use truth_table.Ir.GadgetPasses.FirstError.{run_gadgets, outcome, proving_pass-run_gadgets}
use truth_table.Ir.GadgetPasses.Honest.{AllPass, honest_prover_pass-AllPass}

-- the gadget with identifier 7 stands below the root, and below the plan node 2
abbrev shared : Node ℕ
shared = Node.gadget 7 5 Nodes.nil

abbrev projection : Node ℕ
projection = Node.plan 2 (Nodes.cons shared Nodes.nil)

abbrev root : Node ℕ
root = Node.gadget 0 3 (Nodes.cons shared (Nodes.cons projection (Nodes.cons shared Nodes.nil)))

abbrev store : ℕ → Node ℕ
store i = if i == 0 then root else if i == 2 then projection else shared

root-AreStored : AreStored store root
unfolding AreStored
root-AreStored = (refl, ((refl, tt), ((refl, ((refl, tt), tt)), ((refl, tt), tt))))

build_arena_lem_example :
    PostOrdered [] (build_arena root)
    × AreDistinct (build_arena root)
    × ((j : ℕ) → contains_key j (build_arena root) ≡ has_id j root)
build_arena_lem_example = build_arena_lem store root root-AreStored

abbrev tree : Tree ℕ
tree = record { root = root; arena = (7, shared) ∷ (2, projection) ∷ (0, root) ∷ [] }

abbrev start : Ir ℕ ℕ
start = record { tree = tree; payloads = (7, none) ∷ (2, some 4) ∷ (0, none) ∷ [] }

-- one more than the payload; it counts the nodes that it has seen
abbrev successors : LocalPass ℕ ℕ ℕ ℕ
successors = record {
  transform =
      λ node id payload seen. (elim payload [ none ↦ none | some n ↦ some (n + 1) ], seen + 1);
  order = PassOrder.post_order;
  fallback_payload = λ node id. none;
  begin_pass = λ ir seen. 0;
  end_pass = λ seen. seen;
}

tree-covered : (id : ℕ) → contains_key id tree.arena ≡ true → contains_key id start.payloads ≡ true
tree-covered id h = h

parallel-sequential_example :
    payloads_of (
      apply_local_pass_parallel successors ((2, projection) ∷ (7, shared) ∷ (0, root) ∷ []) start 0)
    ≡ some ((apply_local_pass_sequential successors start 0).0.payloads)
parallel-sequential_example =
    parallel-sequential successors start 0 ((2, projection) ∷ (7, shared) ∷ (0, root) ∷ []) refl
      (Permᴰ.swap refl refl) (refl, (refl, (refl, tt))) tree-covered (λ n id p s. refl)
      (λ n id. refl)

-- a gadget's function writes the gadget down and fails at 3
abbrev log : Step (List ℕ) ℕ (PayloadStructure ℕ) String
log g (seen, ir) id = ((g ∷ seen, ir), if g == 3 then err "three" else ok tt)

abbrev ready : Ir ℕ (PayloadStructure ℕ)
ready = record { tree = tree; payloads = [] }

proving_pass-run_gadgets_example :
    outcome (apply_local_pass_sequential (proving_pass log) ready (new [] ready)).1
    ≡ run_gadgets log ready.tree.arena ([], ready)
proving_pass-run_gadgets_example = proving_pass-run_gadgets log ready [] ready

log-run : run_gadgets log ready.tree.arena ([], ready) ≡ ((3 ∷ 5 ∷ [], ready), err "three")
unfolding run_gadgets
log-run = refl

honest_prover_pass-AllPass_example :
    ((outcome
        (apply_local_pass_sequential
          (honest_prover_pass (λ s. s) (λ t s. t) log)
          ready
          (new [] ready)).1).0
      ≡ ([], ready))
    × (((outcome
            (apply_local_pass_sequential
              (honest_prover_pass (λ s. s) (λ t s. t) log)
              ready
              (new [] ready)).1).1
          ≡ ok tt)
        ↔ AllPass (λ s. s) (λ t s. t) log [] ready (walk ready.tree.root))
honest_prover_pass-AllPass_example =
    honest_prover_pass-AllPass (λ s. s) (λ t s. t) log ready [] ready

-- a projection writes a table of three rows
abbrev write_three : Node ℕ → ℕ → Ir ℕ (PayloadStructure ℕ) → Option (Ir ℕ (PayloadStructure ℕ))
write_three (Node.plan i cs) id ir =
    some (record { tree = ir.tree; payloads = (id, some (PayloadStructure.plan_payload 3)) ∷ [] })
write_three (Node.gadget i g cs) id ir = some ir

abbrev after_projection : Ir ℕ (PayloadStructure ℕ)
after_projection = record {
  tree = tree;
  payloads = (2, some (PayloadStructure.plan_payload 3)) ∷ [];
}

write_three-ends :
    IsSome (apply_local_pass_sequential (virtualization_pass 0 write_three) ready (some ready)).1
unfolding IsSome apply_local_pass_sequential transform_nodes virtualization_pass
    virtualization_transform
write_three-ends = (after_projection, refl)

-- gadgets count themselves
abbrev count : Node ℕ → ℕ → ℕ × Ir ℕ (PayloadStructure ℕ) → Option (ℕ × Ir ℕ (PayloadStructure ℕ))
count (Node.plan i cs) id s = some s
count (Node.gadget i g cs) id (n, ir) = some (n + 1, ir)

abbrev unwrap_or_start : Option (ℕ × Ir ℕ (PayloadStructure ℕ)) → ℕ × Ir ℕ (PayloadStructure ℕ)
unwrap_or_start none = (0, ready)
unwrap_or_start (some s) = s

abbrev initialized : Option (ℕ × Ir ℕ (PayloadStructure ℕ))
initialized =
    (apply_local_pass_sequential (gadget_initialization_pass 0 count) ready (some (0, ready))).1

count-ends : IsSome initialized
unfolding IsSome apply_local_pass_sequential transform_nodes gadget_initialization_pass
    initialization_transform seeded walk
count-ends = (unwrap_or_start initialized, refl)

gadget_initialization_pass-IsSome_example : IsSome (
    payload_for_node
      (apply_local_pass_sequential (gadget_initialization_pass 0 count) ready (some (0, ready))).0
      7)
unfolding walk
gadget_initialization_pass-IsSome_example =
    gadget_initialization_pass-IsSome 0 count ready (some (0, ready)) 7 count-ends refl
