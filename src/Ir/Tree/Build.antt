-- ===== src/Ir/Tree/Build.antt =====
-- The arena that `build_arena` makes of a tree whose identifiers tell nodes apart.
use truth_table.Common.{
  ℕ, ◌+◌, ◌≤◌, ◌≡◌, refl, ◌∙◌, List, [], ◌∷◌, none, some, Bool, true, false, ◌||◌, ◌==◌,
  if◌then◌else◌, arith, Bool-cases, inl, inr, ==_iff,
}
use truth_table.Ir.Nodes.{
  Node, Nodes, id_of, children, ids_of, has_id, any_has_id, weight, weights, AreStored, AllStored,
}
use truth_table.Ir.Tree.{
  contains_key, get, insert, Arena, visit, visit_all, build_arena, new_from_root, get_node,
}
use truth_table.Ir.Tree.Arena.{
  insert_new, contains_key-append, AllKeys, PostOrdered, IsSound, AreDistinct, PostOrdered-append,
  IsSound-append, AreDistinct-append, closed, any_has_id-weights, ids-AllKeys,
}

||_last : (a b c : Bool) → ((a || b) || (c || false)) ≡ (a || (c || b))
||_last true b c = refl
||_last false true true = refl
||_last false true false = refl
||_last false false true = refl
||_last false false false = refl

module _ {ℓ} {A : Type ℓ} where
  get_missing : (i : ℕ) (m : List (ℕ × A)) → contains_key i m ≡ false → get i m ≡ none
  get_missing i [] h = refl
  get_missing i ((j, a) ∷ m) h = elim (Bool-cases (j == i)) [
    | inl e ↦ ground (arith, e, h)
    | inr e ↦ rw e (get_missing i m (ground (arith, e, h)))
  ]

-- sound, in post-order and without a key met twice
abbrev pub IsFine : {G : Type 0} → (ℕ → Node G) → Arena G → Type 0
IsFine store m = IsSound store m × PostOrdered [] m × AreDistinct m

module _ {G : Type 0} where
  -- a node whose subtrees have been visited is inserted, or there already
  insert_visited :
      (store : ℕ → Node G) (m grown : Arena G) (n : Node G)
      → IsFine store m
      → IsFine store grown
      → store (id_of n) ≡ n
      → contains_key (id_of n) grown ≡ contains_key (id_of n) m
      → AllKeys (ids_of (children n)) grown []
      → IsFine store (if contains_key (id_of n) m then m else insert (id_of n) n grown)
  insert_visited store m grown n fine fine' e same all =
      elim (Bool-cases (contains_key (id_of n) m)) [
        | inl there ↦ rw there fine
        | inr new ↦
            let fresh : contains_key (id_of n) grown ≡ false = same ∙ new in
            rw (new, insert_new (id_of n) n grown fresh)
              (
                IsSound-append store grown n fine'.0 e,
                PostOrdered-append [] grown (id_of n) n fine'.1 all,
                AreDistinct-append grown (id_of n) n fine'.2 fresh,
              )
      ]

  insert_visited-contains_key :
      (m grown : Arena G) (n : Node G) (j : ℕ) (below : Bool)
      → (contains_key (id_of n) m ≡ true → (id_of n == j || below) ≡ true → contains_key j m ≡ true)
      → contains_key (id_of n) grown ≡ contains_key (id_of n) m
      → contains_key j grown ≡ (contains_key j m || below)
      → contains_key j (if contains_key (id_of n) m then m else insert (id_of n) n grown)
        ≡ (contains_key j m || (id_of n == j || below))
  insert_visited-contains_key m grown n j below closed same grows =
      elim (Bool-cases (contains_key (id_of n) m)) [
        | inl there ↦ rw there (ground (arith, closed there))
        | inr new ↦
            let fresh : contains_key (id_of n) grown ≡ false = same ∙ new in
            rw (new, insert_new (id_of n) n grown fresh)
              (rw (contains_key-append j grown ((id_of n, n) ∷ []), grows)
                (||_last (contains_key j m) below (id_of n == j)))
      ]

  -- a node's identifier is not met among its children
  fresh_below :
      (store : ℕ → Node G) (n : Node G) (cs : Nodes G)
      → store (id_of n) ≡ n
      → weight n ≡ 1 + weights cs
      → AllStored store cs
      → any_has_id (id_of n) cs ≡ false
  fresh_below store n cs e w s = elim (Bool-cases (any_has_id (id_of n) cs)) [
    | inl h ↦
        let le : weight n ≤ weights cs = rw e at (any_has_id-weights store (id_of n) cs s h) in
        ground arith
    | inr h ↦ h
  ]

  -- what a visit does to a fine arena: it stays fine, and gets the identifiers of the tree
  abbrev Visited : (ℕ → Node G) → (ℕ → Bool) → Arena G → Arena G → Type 0
  Visited store has m m' =
      IsFine store m' × ((j : ℕ) → contains_key j m' ≡ (contains_key j m || has j))

  visit_node :
      (store : ℕ → Node G) (n : Node G) (cs : Nodes G) (m grown : Arena G)
      → children n ≡ cs
      → store (id_of n) ≡ n
      → weight n ≡ 1 + weights cs
      → AllStored store cs
      → ((j : ℕ) → has_id j n ≡ (id_of n == j || any_has_id j cs))
      → AreStored store n
      → IsFine store m
      → Visited store (λ j. any_has_id j cs) m grown
      → Visited store
          (λ j. has_id j n)
          m
          (if contains_key (id_of n) m then m else insert (id_of n) n grown)
  visit_node store n cs m grown ec e w s has sn fine v =
      let fresh = fresh_below store n cs e w s in
      let same : contains_key (id_of n) grown ≡ contains_key (id_of n) m =
        ground (arith, v.1 (id_of n)) in
      (
        insert_visited store m grown n fine v.0 e same
            (rw ec (ids-AllKeys cs grown (λ j h. ground (arith, v.1 j, h)))),
        λ j. rw (has j) (
            insert_visited-contains_key m grown n j (any_has_id j cs)
              (λ there h. closed store m j n sn fine.0 fine.1 there (has j ∙ h)) same (v.1 j)),
      )

  mutual
    unfolding visit has_id AreStored weight

    visit_lem :
        (store : ℕ → Node G) (n : Node G) (m : Arena G)
        → AreStored store n
        → IsFine store m
        → Visited store (λ j. has_id j n) m (visit n m)
    visit_lem store (Node.plan i cs) m s fine =
        visit_node store (Node.plan i cs) cs m (visit_all cs m) refl s.0 refl s.1 (λ j. refl) s fine
          (visit_all_lem store cs m s.1 fine)
    visit_lem store (Node.gadget i g cs) m s fine =
        visit_node store (Node.gadget i g cs) cs m (visit_all cs m) refl s.0 refl s.1 (λ j. refl) s
          fine (visit_all_lem store cs m s.1 fine)

    visit_all_lem :
        (store : ℕ → Node G) (cs : Nodes G) (m : Arena G)
        → AllStored store cs
        → IsFine store m
        → Visited store (λ j. any_has_id j cs) m (visit_all cs m)
    visit_all_lem store Nodes.nil m s fine = (fine, λ j. ground arith)
    visit_all_lem store (Nodes.cons c cs) m s fine =
        let first = visit_lem store c m s.0 fine in
        let rest = visit_all_lem store cs (visit c m) s.1 first.0 in
        (rest.0, λ j. ground (arith, first.1 j, rest.1 j))

  get-IsSound :
      (store : ℕ → Node G) (i : ℕ) (m : Arena G)
      → IsSound store m
      → contains_key i m ≡ true
      → get i m ≡ some (store i)
  get-IsSound store i [] s h = cc
  get-IsSound store i ((j, n) ∷ m) s h = elim (Bool-cases (j == i)) [
    | inl e ↦ let same : j ≡ i = (==_iff j i).0 e in rw (e, ← same, s.0) refl
    | inr e ↦ rw (e, get-IsSound store i m s.2 (ground (arith, e, h))) refl
  ]

  -- For a root below which every node is the one that the store has under its identifier: the arena
  -- built of it lists each node after its children and no identifier twice, and an identifier is a
  -- key of it exactly when it is that of the root or of a node below it.
  pub build_arena_lem :
      (store : ℕ → Node G) (root : Node G)
      → AreStored store root
      → PostOrdered [] (build_arena root)
        × AreDistinct (build_arena root)
        × ((j : ℕ) → contains_key j (build_arena root) ≡ has_id j root)
  unfolding build_arena
  build_arena_lem store root s =
      let done = visit_lem store root [] s (tt, tt, tt) in (done.0.1, done.0.2, done.1)

  -- For such a root, looking an identifier up in the tree made of it finds the node of that
  -- identifier when the root or a node below it has it, and nothing when none has.
  pub get_node-new_from_root :
      (store : ℕ → Node G) (root : Node G) (j : ℕ)
      → AreStored store root
      → get_node (new_from_root root) j ≡ (if has_id j root then some (store j) else none)
  unfolding build_arena new_from_root get_node
  get_node-new_from_root store root j s =
      let done = visit_lem store root [] s (tt, tt, tt) in
      elim (Bool-cases (has_id j root)) [
        | inl e ↦ rw e (get-IsSound store j (visit root []) done.0.0 (done.1 j ∙ e))
        | inr e ↦ rw e (get_missing j (visit root []) (done.1 j ∙ e))
      ]
