-- ===== src/Ir/Tree.antt =====
-- `build_arena` and `Tree` (crates/tt-core/src/irs/tree.rs). The arena, an index map, is a list of
-- entries in the order of insertion.
pub mod Arena
pub mod Build
use truth_table.Common.{
  ℕ, List, [], ◌∷◌, Option, none, some, Bool, true, false, ◌||◌, ◌==◌, if◌then◌else◌,
}
use truth_table.Ir.Nodes.{Node, Nodes, id_of}

module _ {ℓ} {A : Type ℓ} where
  -- `IndexMap::contains_key`
  abbrev pub contains_key : ℕ → List (ℕ × A) → Bool
  contains_key i [] = false
  contains_key i ((j, a) ∷ m) = j == i || contains_key i m

  -- `IndexMap::get`
  abbrev pub get : ℕ → List (ℕ × A) → Option A
  get i [] = none
  get i ((j, a) ∷ m) = if j == i then some a else get i m

  -- `IndexMap::insert`: the place of a key that is there is kept
  unfoldable pub insert : ℕ → A → List (ℕ × A) → List (ℕ × A)
  insert i a [] = (i, a) ∷ []
  insert i a ((j, b) ∷ m) = let rest = insert i a m in if j == i then (j, a) ∷ m else (j, b) ∷ rest

abbrev pub Arena : Type 0 → Type 0
Arena G = List (ℕ × Node G)

module _ {G : Type 0} where
  unfoldable mutual
    pub visit : Node G → Arena G → Arena G
    visit (Node.plan i cs) arena =
        let grown = insert i (Node.plan i cs) (visit_all cs arena) in
        if contains_key i arena then arena else grown
    visit (Node.gadget i g cs) arena =
        let grown = insert i (Node.gadget i g cs) (visit_all cs arena) in
        if contains_key i arena then arena else grown

    pub visit_all : Nodes G → Arena G → Arena G
    visit_all Nodes.nil arena = arena
    visit_all (Nodes.cons c cs) arena = visit_all cs (visit c arena)

  unfoldable pub build_arena : Node G → Arena G
  unfolding visit
  build_arena root = visit root []

pub record Tree (G : Type 0) : Type 0 where
  pub root : Node G
  pub arena : Arena G

module _ {G : Type 0} where
  unfoldable pub new_from_root : Node G → Tree G
  unfolding build_arena
  new_from_root root = record { root = root; arena = build_arena root }

  unfoldable pub get_node : Tree G → ℕ → Option (Node G)
  get_node t i = get i t.arena
