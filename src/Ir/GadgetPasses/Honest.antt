-- ===== src/Ir/GadgetPasses/Honest.antt =====
-- `HonestProverPass` (crates/tt-core/src/prover/passes/honest_prover.rs): its run checks copies.
use truth_table.Common.{ℕ, ◌≡◌, refl, sym, ap, ◌∙◌, ◌↔◌, [], ◌∷◌, Result, ok, err}
use truth_table.Ir.Nodes.{Node}
use truth_table.Ir.Tree.{Arena}
use truth_table.Ir.Passes.{Ir, PassOrder, apply_local_pass_sequential, walk}
use truth_table.Ir.GadgetPasses.{
  PayloadStructure, new, Step, deep_clone_gadget_ready_ir, check_copies, honest_prover_pass,
}
use truth_table.Ir.GadgetPasses.FirstError.{
  and_then, run_gadgets, outcome, transform_nodes-run_gadgets,
}

module _ {A G T E : Type 0} (deep_copy : A → A) (deep_clone : T → A → T)
    (check : Step A G (PayloadStructure T) E) (arg : A) (view : Ir G (PayloadStructure T)) where
  -- the check of a gadget on copies of the prover and of the payloads
  abbrev check_of : G → ℕ → Result E (Unit {0})
  check_of g id =
      let prover : A = deep_copy arg in
      (check g (prover, deep_clone_gadget_ready_ir deep_clone view prover) id).1

  -- every gadget of the list passes its check
  unfoldable pub AllPass : Arena G → Type 0
  AllPass [] = Unit
  AllPass ((id, Node.plan i cs) ∷ nodes) = AllPass nodes
  AllPass ((id, Node.gadget i g cs) ∷ nodes) = (check_of g id ≡ ok tt) × AllPass nodes

  run_gadgets-check_copies :
      (nodes : Arena G)
      → (run_gadgets (check_copies deep_copy deep_clone check) nodes (arg, view)).0 ≡ (arg, view)
  unfolding run_gadgets
  run_gadgets-check_copies [] = refl
  run_gadgets-check_copies ((id, Node.plan i cs) ∷ nodes) = run_gadgets-check_copies nodes
  run_gadgets-check_copies ((id, Node.gadget i g cs) ∷ nodes) =
      go (check_of g id) (run_gadgets-check_copies nodes)
    where
      go :
          (r : Result E (Unit {0}))
          → (run_gadgets (check_copies deep_copy deep_clone check) nodes (arg, view)).0
            ≡ (arg, view)
          → (and_then
              ((arg, view), r)
              (run_gadgets (check_copies deep_copy deep_clone check) nodes)).0
            ≡ (arg, view)
      go (ok _) rest = rest
      go (err e) rest = refl

  run_gadgets-AllPass :
      (nodes : Arena G)
      → ((run_gadgets (check_copies deep_copy deep_clone check) nodes (arg, view)).1 ≡ ok tt)
        ↔ AllPass nodes
  unfolding run_gadgets AllPass
  run_gadgets-AllPass [] = (λ e. tt, λ h. refl)
  run_gadgets-AllPass ((id, Node.plan i cs) ∷ nodes) = run_gadgets-AllPass nodes
  run_gadgets-AllPass ((id, Node.gadget i g cs) ∷ nodes) =
      go (check_of g id) (run_gadgets-AllPass nodes)
    where
      go :
          (r : Result E (Unit {0}))
          → (((run_gadgets (check_copies deep_copy deep_clone check) nodes (arg, view)).1 ≡ ok tt)
              ↔ AllPass nodes)
          → ((and_then
                ((arg, view), r)
                (run_gadgets (check_copies deep_copy deep_clone check) nodes)).1
              ≡ ok tt)
            ↔ ((r ≡ ok tt) × AllPass nodes)
      go (ok _) rest = (λ e. (refl, rest.0 e), λ h. rest.1 h.1)
      go (err e) rest = (λ h. cc, λ h. cc)

module _ {A G T E : Type 0} where
  -- The honest prover pass leaves the prover and the payloads as they were, and its result is a success
  -- exactly when every gadget of the tree, in the walk from the root, passes its check on copies of
  -- them.
  pub honest_prover_pass-AllPass :
      (deep_copy : A → A) (deep_clone : T → A → T) (check : Step A G (PayloadStructure T) E)
      (ir : Ir G (PayloadStructure T)) (arg : A) (view : Ir G (PayloadStructure T))
      → ((outcome
            (apply_local_pass_sequential
              (honest_prover_pass deep_copy deep_clone check)
              ir
              (new arg view)).1).0
          ≡ (arg, view))
        × (((outcome
                (apply_local_pass_sequential
                  (honest_prover_pass deep_copy deep_clone check)
                  ir
                  (new arg view)).1).1
              ≡ ok tt)
            ↔ AllPass deep_copy deep_clone check arg view (walk ir.tree.root))
  unfolding apply_local_pass_sequential honest_prover_pass
  honest_prover_pass-AllPass deep_copy deep_clone check ir arg view =
      let nodes : Arena G = walk ir.tree.root in
      let step = check_copies deep_copy deep_clone check in
      let same = transform_nodes-run_gadgets step PassOrder.pre_order ir nodes [] (arg, view) in
      let passes = run_gadgets-AllPass deep_copy deep_clone check arg view nodes in
      (
        ap (λ x. x.0) same ∙ run_gadgets-check_copies deep_copy deep_clone check arg view nodes,
        (λ e. passes.0 (sym (ap (λ x. x.1) same) ∙ e), λ h. ap (λ x. x.1) same ∙ passes.1 h),
      )
