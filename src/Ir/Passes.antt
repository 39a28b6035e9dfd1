-- ===== src/Ir/Passes.antt =====
-- `Ir`, `LocalPass` and the two ways to run a pass (crates/tt-core/src/irs/ir.rs). What a pass keeps in
-- its cells is a state `S` that its functions take and return. rayon decides in what order the nodes
-- of a parallel run are transformed: the order is an argument.
pub mod Parallel
use truth_table.Common.{ℕ, List, [], ◌∷◌, ◌++◌, Option, none, some, map, if◌then◌else◌}
use truth_table.Ir.Nodes.{Node, Nodes, id_of, children}
use truth_table.Ir.Tree.{contains_key, get, insert, Arena, Tree}

abbrev pub PayloadMap : Type 0 → Type 0
PayloadMap P = List (ℕ × Option P)

pub record Ir (G : Type 0) (P : Type 0) : Type 0 where
  pub tree : Tree G
  pub payloads : PayloadMap P

abbrev pub flatten : {A : Type 0} → Option (Option A) → Option A
flatten none = none
flatten (some a) = a

abbrev pub or_else : {A : Type 0} → Option A → Option A → Option A
or_else none b = b
or_else (some a) b = some a

module _ {G P : Type 0} where
  unfoldable pub new_empty : Tree G → Ir G P
  new_empty tree = record { tree = tree; payloads = map (λ e. (e.0, none)) tree.arena }

  abbrev pub payload_for_node : Ir G P → ℕ → Option P
  payload_for_node ir id = flatten (get id ir.payloads)

  unfoldable pub set_payload_for_node : ℕ → Option P → Ir G P → Ir G P
  set_payload_for_node id payload ir = record {
    tree = ir.tree;
    payloads = insert id payload ir.payloads;
  }

pub data PassOrder : Type 0 where
  pre_order : PassOrder
  post_order : PassOrder

pub record LocalPass (G PIn POut S : Type 0) : Type 0 where
  pub transform : Node G → ℕ → Option PIn → S → Option POut × S
  pub order : PassOrder
  pub fallback_payload : Node G → ℕ → Option PIn
  pub begin_pass : Ir G PIn → S → S
  pub end_pass : S → S

module _ {G : Type 0} where
  unfoldable mutual
    pub walk : Node G → Arena G
    walk (Node.plan i cs) = (i, Node.plan i cs) ∷ walk_all cs
    walk (Node.gadget i g cs) = (i, Node.gadget i g cs) ∷ walk_all cs

    pub walk_all : Nodes G → Arena G
    walk_all Nodes.nil = []
    walk_all (Nodes.cons c cs) = walk c ++ walk_all cs

  abbrev pub ordered_nodes : {P : Type 0} → Ir G P → PassOrder → Arena G
  ordered_nodes ir PassOrder.post_order = ir.tree.arena
  ordered_nodes ir PassOrder.pre_order = walk ir.tree.root

module _ {G PIn POut S : Type 0} where
  abbrev pub input_payload : LocalPass G PIn POut S → Ir G PIn → Node G → ℕ → Option PIn
  input_payload pass ir node id = or_else (payload_for_node ir id) (pass.fallback_payload node id)

  unfoldable pub transform_nodes :
      LocalPass G PIn POut S → Ir G PIn → Arena G → PayloadMap POut → S → PayloadMap POut × S
  transform_nodes pass ir [] out s = (out, s)
  transform_nodes pass ir ((id, node) ∷ nodes) out s =
      let done = pass.transform node id (input_payload pass ir node id) s in
      transform_nodes pass ir nodes (insert id done.0 out) done.1

  unfoldable pub apply_local_pass_sequential : LocalPass G PIn POut S → Ir G PIn → S → Ir G POut × S
  unfolding transform_nodes
  apply_local_pass_sequential pass ir s =
      let run = transform_nodes pass ir (ordered_nodes ir pass.order) [] (pass.begin_pass ir s) in
      (record { tree = ir.tree; payloads = run.0 }, pass.end_pass run.1)

  -- the closure that the threads run, once for each entry, in the order of `schedule`
  abbrev pub transform_one : LocalPass G PIn POut S → Ir G PIn → ℕ × Node G → S → Option POut × S
  transform_one pass ir e s =
      if contains_key e.0 ir.payloads
      then pass.transform e.1 e.0 (payload_for_node ir e.0) s
      else (none, s)

  unfoldable pub run_schedule :
      LocalPass G PIn POut S → Ir G PIn → (schedule : Arena G) → S → PayloadMap POut × S
  run_schedule pass ir [] s = ([], s)
  run_schedule pass ir (e ∷ schedule) s =
      let done = transform_one pass ir e s in
      let rest = run_schedule pass ir schedule done.1 in ((e.0, done.0) ∷ rest.0, rest.1)

-- `collect` of an indexed parallel iterator: the results in the order of the arena
abbrev pub in_order : {G P : Type 0} → Arena G → PayloadMap P → PayloadMap P
in_order arena results = map (λ e. (e.0, flatten (get e.0 results))) arena

abbrev pub insert_all : {P : Type 0} → PayloadMap P → PayloadMap P → PayloadMap P
insert_all [] out = out
insert_all ((id, payload) ∷ rest) out = insert_all rest (insert id payload out)

module _ {G PIn POut S : Type 0} where
  -- `none` is the panic
  unfoldable pub apply_local_pass_parallel :
      LocalPass G PIn POut S → (schedule : Arena G) → Ir G PIn → S → Option (Ir G POut × S)
  unfolding run_schedule
  apply_local_pass_parallel pass schedule ir s = elim pass.order [
    | pre_order ↦ none
    | post_order ↦
        let run = run_schedule pass ir schedule (pass.begin_pass ir s) in
        some (
          record { tree = ir.tree; payloads = insert_all (in_order ir.tree.arena run.0) [] },
          pass.end_pass run.1,
        )
  ]
