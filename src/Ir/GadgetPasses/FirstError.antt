-- ===== src/Ir/GadgetPasses/FirstError.antt =====
-- The gadget passes as runs that stop at the first error.
use truth_table.Common.{◌≡◌, refl, [], ◌∷◌, none, some, Result, ok, err}
use truth_table.Ir.Nodes.{Node}
use truth_table.Ir.Tree.{insert, Arena}
use truth_table.Ir.Passes.{Ir, PayloadMap, PassOrder, transform_nodes, apply_local_pass_sequential}
use truth_table.Ir.GadgetPasses.{
  EmptyPayload, Cells, new, take_result, Step, record_result, transform_gadget, gadget_pass,
  proving_pass, Wording, worded, verify_pass,
}

-- `?` in a run that keeps its state
abbrev pub and_then :
    {S E : Type 0}
    → S × Result E (Unit {0})
    → (S → S × Result E (Unit {0}))
    → S × Result E (Unit {0})
and_then (s, ok _) f = f s
and_then (s, err e) f = (s, err e)

-- what is left in the cells, and the result that is taken from them
abbrev pub outcome : {A G P E : Type 0} → Cells A G P E → (A × Ir G P) × Result E (Unit {0})
outcome cells = ((cells.arg, cells.gadget_ready_ir), take_result cells)

module _ {A G P E : Type 0} (step : Step A G P E) where
  -- the gadgets of a list of nodes one after another, up to the first error
  unfoldable pub run_gadgets : Arena G → A × Ir G P → (A × Ir G P) × Result E (Unit {0})
  run_gadgets [] s = (s, ok tt)
  run_gadgets ((id, Node.plan i cs) ∷ nodes) s = run_gadgets nodes s
  run_gadgets ((id, Node.gadget i g cs) ∷ nodes) s = and_then (step g s id) (run_gadgets nodes)

  -- after an error nothing changes
  transform_nodes-stopped :
      (order : PassOrder) (ir : Ir G P) (nodes : Arena G) (out : PayloadMap EmptyPayload)
      (s : A × Ir G P) (e : E)
      → outcome
          (transform_nodes
            (gadget_pass step order)
            ir
            nodes
            out
            (record { arg = s.0; gadget_ready_ir = s.1; error = some e })).1
        ≡ (s, err e)
  unfolding transform_nodes transform_gadget
  transform_nodes-stopped order ir [] out s e = refl
  transform_nodes-stopped order ir ((id, n) ∷ nodes) out s e =
      transform_nodes-stopped order ir nodes (insert id none out) s e

  pub transform_nodes-run_gadgets :
      (order : PassOrder) (ir : Ir G P) (nodes : Arena G) (out : PayloadMap EmptyPayload)
      (s : A × Ir G P)
      → outcome (transform_nodes (gadget_pass step order) ir nodes out (new s.0 s.1)).1
        ≡ run_gadgets nodes s
  unfolding transform_nodes transform_gadget run_gadgets
  transform_nodes-run_gadgets order ir [] out s = refl
  transform_nodes-run_gadgets order ir ((id, Node.plan i cs) ∷ nodes) out s =
      transform_nodes-run_gadgets order ir nodes (insert id none out) s
  transform_nodes-run_gadgets order ir ((id, Node.gadget i g cs) ∷ nodes) out s =
      go (transform_nodes-run_gadgets order ir nodes) (step g s id)
    where
      go :
          ((out' : PayloadMap EmptyPayload) (s' : A × Ir G P)
            → outcome (transform_nodes (gadget_pass step order) ir nodes out' (new s'.0 s'.1)).1
              ≡ run_gadgets nodes s')
          → (r : (A × Ir G P) × Result E (Unit {0}))
          → outcome
              (transform_nodes
                (gadget_pass step order)
                ir
                nodes
                (insert id (record_result r).0 out)
                (record_result r).1).1
            ≡ and_then r (run_gadgets nodes)
      go rest (s', ok _) = rest (insert id (some EmptyPayload.empty_payload) out) s'
      go rest (s', err e) = transform_nodes-stopped order ir nodes (insert id none out) s' e

module _ {A G P E : Type 0} where
  -- The proving pass does what running the gadgets of the arena one after another does, up to the
  -- first error: it leaves the prover and the payloads as that run leaves them, and the result taken
  -- from it is that run's, its first error if there is one.
  pub proving_pass-run_gadgets :
      (prove : Step A G P E) (ir : Ir G P) (arg : A) (view : Ir G P)
      → outcome (apply_local_pass_sequential (proving_pass prove) ir (new arg view)).1
        ≡ run_gadgets prove ir.tree.arena (arg, view)
  unfolding apply_local_pass_sequential proving_pass
  proving_pass-run_gadgets prove ir arg view =
      transform_nodes-run_gadgets prove PassOrder.post_order ir ir.tree.arena [] (arg, view)

  -- The verify pass does what running the gadgets' verifiers on the arena does, with their errors
  -- worded, up to the first error.
  verify_pass-run_gadgets :
      (w : Wording G E) (verify : Step A G P E) (ir : Ir G P) (arg : A) (view : Ir G P)
      → outcome (apply_local_pass_sequential (verify_pass w verify) ir (new arg view)).1
        ≡ run_gadgets (worded w verify) ir.tree.arena (arg, view)
  unfolding apply_local_pass_sequential verify_pass
  verify_pass-run_gadgets w verify ir arg view =
      transform_nodes-run_gadgets (worded w verify) PassOrder.post_order ir ir.tree.arena []
        (arg, view)
