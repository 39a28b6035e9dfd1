-- ===== src/Ir/JoinModes.antt =====
-- The modes of the joins of a tree, in the order of a walk from the root, which are serialised beside
-- the plan: `collect_join_modes` and `apply_join_modes` of crates/tt-core/src/irs/codec.rs, with
-- `set_join_mode` of crates/tt-core/src/irs/nodes/plan/lps/join/gadget/mod.rs. A gadget is shared, so
-- its mode is kept in a store by its address.
pub mod Applied
pub mod RoundTrip
use truth_table.Common.{
  ℕ, ◌+◌, List, [], ◌∷◌, ◌++◌, Option, none, some, Bool, true, false, ◌&&◌, ◌==◌, if◌then◌else◌,
  get_elem?,
}
use truth_table.Codec.Enums.{JoinMode, JoinModeRepr, from_join_mode, to_join_mode}
use truth_table.Ir.Nodes.{Node, Nodes}

-- what the join gadgets hold, by address: the mode, and whether the gadgets below have been dropped
pub record Store : Type 0 where
  pub mode : ℕ → JoinMode
  pub has_one : ℕ → Bool

abbrev pub is_specialised : JoinMode → Bool
is_specialised JoinMode.many_to_many = false
is_specialised _ = true

unfoldable pub set_join_mode : ℕ → JoinMode → Store → Store
set_join_mode id mode store = record {
  mode = λ i. if i == id then mode else store.mode i;
  has_one = λ i. if i == id && is_specialised mode then true else store.has_one i;
}

abbrev pub mode_or_default : Store → Option ℕ → JoinMode
mode_or_default store none = JoinMode.many_to_many
mode_or_default store (some i) = store.mode i

abbrev pub pushed : Bool → JoinMode → List JoinModeRepr → List JoinModeRepr
pushed join mode out = if join then out ++ (from_join_mode mode ∷ []) else out

-- `is_join` tells which plan nodes have a join for their plan, by address
module _ {G : Type 0} (is_join : ℕ → Bool) (is_join_gadget : G → Bool) where
  -- `find_map` over the children: the address of the first one that is a join gadget
  unfoldable pub first_join_gadget : Nodes G → Option ℕ
  first_join_gadget Nodes.nil = none
  first_join_gadget (Nodes.cons (Node.plan i below) cs) = first_join_gadget cs
  first_join_gadget (Nodes.cons (Node.gadget i g below) cs) =
      let rest = first_join_gadget cs in if is_join_gadget g then some i else rest

  unfoldable mutual
    pub collect_join_modes : Store → Node G → List JoinModeRepr → List JoinModeRepr
    collect_join_modes store (Node.plan i cs) out =
        collect_all store cs (pushed (is_join i) (mode_or_default store (first_join_gadget cs)) out)
    collect_join_modes store (Node.gadget i g cs) out =
        let below = collect_all store cs out in
        if is_join_gadget g && store.has_one i then out else below

    pub collect_all : Store → Nodes G → List JoinModeRepr → List JoinModeRepr
    collect_all store Nodes.nil out = out
    collect_all store (Nodes.cons c cs) out = collect_all store cs (collect_join_modes store c out)

  -- the loop over the children of a join
  unfoldable pub set_gadgets : JoinMode → Nodes G → Store → Store
  unfolding set_join_mode
  set_gadgets mode Nodes.nil store = store
  set_gadgets mode (Nodes.cons (Node.plan i below) cs) store = set_gadgets mode cs store
  set_gadgets mode (Nodes.cons (Node.gadget i g below) cs) store =
      set_gadgets mode cs (if is_join_gadget g then set_join_mode i mode store else store)

  abbrev pub set_if_given : Option JoinModeRepr → Nodes G → Store → Store
  set_if_given none cs store = store
  set_if_given (some repr) cs store = set_gadgets (to_join_mode repr) cs store

  abbrev pub applied_here : Bool → List JoinModeRepr → Nodes G → Store × ℕ → Store × ℕ
  applied_here join modes cs (store, idx) =
      if join then (set_if_given (get_elem? modes idx) cs store, 1 + idx) else (store, idx)

  unfoldable mutual
    pub apply_join_modes : List JoinModeRepr → Node G → Store × ℕ → Store × ℕ
    apply_join_modes modes (Node.plan i cs) s =
        apply_all modes cs (applied_here (is_join i) modes cs s)
    apply_join_modes modes (Node.gadget i g cs) s =
        let below = apply_all modes cs s in if is_join_gadget g && s.0.has_one i then s else below

    pub apply_all : List JoinModeRepr → Nodes G → Store × ℕ → Store × ℕ
    apply_all modes Nodes.nil s = s
    apply_all modes (Nodes.cons c cs) s = apply_all modes cs (apply_join_modes modes c s)
