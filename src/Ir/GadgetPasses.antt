-- ===== src/Ir/GadgetPasses.antt =====
-- The passes that run the gadgets: `ProvingPass` (crates/tt-core/src/prover/passes/proving.rs),
-- `HonestProverPass` (prover/passes/honest_prover.rs) and `VerifyPass` (verifier/passes/verify.rs). What
-- ark_piop's `ArgProver` and `ArgVerifier` keep, the gadgets' own functions and the texts of errors are
-- arguments.
pub mod FirstError
pub mod Honest
use truth_table.Common.{
  ℕ, List, [], ◌∷◌, Option, none, some, map, Bool, true, false, ◌||◌, ◌==◌, if◌then◌else◌, Result,
  ok, err, String,
}
use truth_table.Ir.Nodes.{Node, Nodes, plan, gadget, children, ids_of}
use truth_table.Ir.Tree.{Arena, Tree}
use truth_table.Ir.Passes.{Ir, PassOrder, LocalPass}

-- `PayloadStructure` (crates/tt-core/src/irs/payloads.rs)
pub data PayloadStructure (T : Type 0) : Type 0 where
  plan_payload : T → PayloadStructure T
  gadget_payload : List (String × T) → PayloadStructure T

pub data EmptyPayload : Type 0 where
  empty_payload : EmptyPayload

abbrev pub any_is : ℕ → List ℕ → Bool
any_is id [] = false
any_is id (j ∷ js) = j == id || any_is id js

-- `parent_name_for`: the name of the first node of the arena that has a child of that identifier
unfoldable pub parent_name_for : {G : Type 0} → (Node G → String) → Arena G → ℕ → Option String
parent_name_for name [] id = none
parent_name_for name ((parent_id, node) ∷ arena) id =
    let rest = parent_name_for name arena id in
    if any_is id (ids_of (children node)) then some (name node) else rest

-- the cells of a pass: the prover or verifier, its view of the payloads, and the error
pub record Cells (A G P E : Type 0) : Type 0 where
  pub arg : A
  pub gadget_ready_ir : Ir G P
  pub error : Option E

-- what a gadget's function makes of the prover or verifier and of the payloads
abbrev pub Step : Type 0 → Type 0 → Type 0 → Type 0 → Type 0
Step A G P E = G → A × Ir G P → ℕ → (A × Ir G P) × Result E (Unit {0})

module _ {A G P E : Type 0} where
  abbrev pub new : A → Ir G P → Cells A G P E
  new arg ir = record { arg = arg; gadget_ready_ir = ir; error = none }

  abbrev pub take_result : Cells A G P E → Result E (Unit {0})
  take_result cells = elim cells.error [ none ↦ ok tt | some e ↦ err e ]

  -- after a gadget's function has returned
  abbrev pub record_result :
      (A × Ir G P) × Result E (Unit {0}) → Option EmptyPayload × Cells A G P E
  record_result (s, ok _) =
      (some EmptyPayload.empty_payload, record { arg = s.0; gadget_ready_ir = s.1; error = none })
  record_result (s, err e) = (none, record { arg = s.0; gadget_ready_ir = s.1; error = some e })

  -- the body that the three passes share: nothing is done once there is an error, or at a plan node
  unfoldable pub transform_gadget :
      Step A G P E → Node G → ℕ → Option P → Cells A G P E → Option EmptyPayload × Cells A G P E
  transform_gadget step node id payload cells = elim cells.error [
    | some e ↦ (none, cells)
    | none ↦ elim node [
      | plan i cs ↦ (none, cells)
      | gadget i g cs ↦ record_result (step g (cells.arg, cells.gadget_ready_ir) id)
    ]
  ]

  abbrev pub gadget_pass : Step A G P E → PassOrder → LocalPass G P EmptyPayload (Cells A G P E)
  gadget_pass step order = record {
    transform = transform_gadget step;
    order = order;
    fallback_payload = λ node id. none;
    begin_pass = λ ir cells. cells;
    end_pass = λ cells. cells;
  }

  unfoldable pub proving_pass : Step A G P E → LocalPass G P EmptyPayload (Cells A G P E)
  proving_pass prove = gadget_pass prove PassOrder.post_order

module _ {A T : Type 0} (deep_clone : T → A → T) where
  abbrev deep_clone_entries : List (String × T) → A → List (String × T)
  deep_clone_entries [] prover = []
  deep_clone_entries ((key, table) ∷ rest) prover =
      (key, deep_clone table prover) ∷ deep_clone_entries rest prover

  abbrev deep_clone_payload : Option (PayloadStructure T) → A → Option (PayloadStructure T)
  deep_clone_payload none prover = none
  deep_clone_payload (some (PayloadStructure.plan_payload table)) prover =
      some (PayloadStructure.plan_payload (deep_clone table prover))
  deep_clone_payload (some (PayloadStructure.gadget_payload entries)) prover =
      some (PayloadStructure.gadget_payload (deep_clone_entries entries prover))

  abbrev pub deep_clone_gadget_ready_ir :
      {G : Type 0} → Ir G (PayloadStructure T) → A → Ir G (PayloadStructure T)
  deep_clone_gadget_ready_ir ir prover = record {
    tree = ir.tree;
    payloads = map (λ e. (e.0, deep_clone_payload e.1 prover)) ir.payloads;
  }

module _ {A G T E : Type 0} (deep_copy : A → A) (deep_clone : T → A → T) where
  -- a check of copies, which keeps the prover and the payloads as they are
  abbrev pub check_copies : Step A G (PayloadStructure T) E → Step A G (PayloadStructure T) E
  check_copies check g (arg, ir) id =
      let prover : A = deep_copy arg in
      ((arg, ir), (check g (prover, deep_clone_gadget_ready_ir deep_clone ir prover) id).1)

  unfoldable pub honest_prover_pass :
      Step A G (PayloadStructure T) E
      → LocalPass G (PayloadStructure T) EmptyPayload (Cells A G (PayloadStructure T) E)
  honest_prover_pass check = gadget_pass (check_copies check) PassOrder.pre_order

-- how the verifier words the failure of a gadget: its name, its parent's and the cause
pub record Wording (G E : Type 0) : Type 0 where
  pub gadget_name : G → String
  pub name : Node G → String
  pub no_parent : String
  pub no_text : String
  pub should_log_parent : Bool
  pub verifier_check_failed : String → String → E → E

abbrev unwrap_or : Option String → String → String
unwrap_or none text = text
unwrap_or (some name) text = name

module _ {G E : Type 0} (w : Wording G E) where
  abbrev parent_name : {P : Type 0} → Ir G P → ℕ → String
  parent_name ir id =
      if w.should_log_parent
      then unwrap_or (parent_name_for w.name ir.tree.arena id) w.no_parent
      else w.no_text

  abbrev pub word_error : String → String → Result E (Unit {0}) → Result E (Unit {0})
  word_error name parent (ok u) = ok u
  word_error name parent (err e) = err (w.verifier_check_failed name parent e)

  abbrev pub worded : {A P : Type 0} → Step A G P E → Step A G P E
  unfolding parent_name_for
  worded verify g s id =
      let ran = verify g s id in (ran.0, word_error (w.gadget_name g) (parent_name s.1 id) ran.1)

  unfoldable pub verify_pass :
      {A P : Type 0} → Step A G P E → LocalPass G P EmptyPayload (Cells A G P E)
  verify_pass verify = gadget_pass (worded verify) PassOrder.post_order
