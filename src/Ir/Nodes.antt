-- ===== src/Ir/Nodes.antt =====
-- Nodes of the intermediate representation (crates/tt-core/src/irs/nodes/mod.rs). A node carries the
-- identifier that `Node::id` hashes from its address. Nodes that are shared are equal.
use truth_table.Common.{ℕ, ◌+◌, ◌≡◌, List, [], ◌∷◌, Bool, false, ◌||◌, ◌==◌}

mutual
  -- `G` is the type of the gadgets
  pub data Node (G : Type 0) : Type 0 where
    plan : ℕ → Nodes G → Node G
    gadget : ℕ → G → Nodes G → Node G

  pub data Nodes (G : Type 0) : Type 0 where
    nil : Nodes G
    cons : Node G → Nodes G → Nodes G

module _ {G : Type 0} where
  abbrev pub id_of : Node G → ℕ
  id_of (Node.plan i cs) = i
  id_of (Node.gadget i g cs) = i

  abbrev pub children : Node G → Nodes G
  children (Node.plan i cs) = cs
  children (Node.gadget i g cs) = cs

  abbrev pub ids_of : Nodes G → List ℕ
  ids_of Nodes.nil = []
  ids_of (Nodes.cons c cs) = id_of c ∷ ids_of cs

  unfoldable mutual
    -- whether an identifier is that of the node or of one below it
    pub has_id : ℕ → Node G → Bool
    has_id j (Node.plan i cs) = i == j || any_has_id j cs
    has_id j (Node.gadget i g cs) = i == j || any_has_id j cs

    pub any_has_id : ℕ → Nodes G → Bool
    any_has_id j Nodes.nil = false
    any_has_id j (Nodes.cons c cs) = has_id j c || any_has_id j cs

  unfoldable mutual
    -- the number of nodes, a shared one counted at each place
    pub weight : Node G → ℕ
    weight (Node.plan i cs) = 1 + weights cs
    weight (Node.gadget i g cs) = 1 + weights cs

    pub weights : Nodes G → ℕ
    weights Nodes.nil = 0
    weights (Nodes.cons c cs) = weight c + weights cs

  unfoldable mutual
    -- Every node below is the one that stands at its address: identifiers tell nodes apart.
    pub AreStored : (ℕ → Node G) → Node G → Type 0
    AreStored store (Node.plan i cs) = (store i ≡ Node.plan i cs) × AllStored store cs
    AreStored store (Node.gadget i g cs) = (store i ≡ Node.gadget i g cs) × AllStored store cs

    pub AllStored : (ℕ → Node G) → Nodes G → Type 0
    AllStored store Nodes.nil = Unit
    AllStored store (Nodes.cons c cs) = AreStored store c × AllStored store cs
