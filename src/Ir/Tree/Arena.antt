-- ===== src/Ir/Tree/Arena.antt =====
-- The arena that `build_arena` makes of a tree whose identifiers tell nodes apart.
use truth_table.Common.{
  ℕ, ◌≤◌, ◌≡◌, refl, List, [], ◌∷◌, ◌++◌, true, false, ◌||◌, ◌==◌, arith, Bool-cases, inl, inr,
  ==_iff,
}
use truth_table.Ir.Nodes.{
  Node, Nodes, id_of, children, ids_of, has_id, any_has_id, weight, weights, AreStored, AllStored,
}
use truth_table.Ir.Tree.{contains_key, insert, Arena}

module _ {ℓ} {A : Type ℓ} where
  pub insert_new :
      (i : ℕ) (a : A) (m : List (ℕ × A))
      → contains_key i m ≡ false
      → insert i a m ≡ m ++ (i, a) ∷ []
  unfolding insert
  insert_new i a [] h = refl
  insert_new i a ((j, b) ∷ m) h = ground (arith, insert_new i a m)

  pub contains_key-append :
      (i : ℕ) (m n : List (ℕ × A))
      → contains_key i (m ++ n) ≡ (contains_key i m || contains_key i n)
  contains_key-append i [] n = refl
  contains_key-append i ((j, b) ∷ m) n = ground (arith, contains_key-append i m n)

-- every identifier of the list is a key of one of the two
abbrev pub AllKeys : {G : Type 0} → List ℕ → Arena G → Arena G → Type 0
AllKeys [] m n = Unit
AllKeys (i ∷ is) m n = ((contains_key i m || contains_key i n) ≡ true) × AllKeys is m n

-- The children of each node stand before it: in the list, or among those seen already.
abbrev pub PostOrdered : {G : Type 0} → Arena G → Arena G → Type 0
PostOrdered seen [] = Unit
PostOrdered seen ((i, n) ∷ m) =
    AllKeys (ids_of (children n)) [] seen × PostOrdered ((i, n) ∷ seen) m

-- each key is its node's identifier, and its node the one that stands there
abbrev pub IsSound : {G : Type 0} → (ℕ → Node G) → Arena G → Type 0
IsSound store [] = Unit
IsSound store ((i, n) ∷ m) = (store i ≡ n) × (id_of n ≡ i) × IsSound store m

abbrev pub AreDistinct : {G : Type 0} → Arena G → Type 0
AreDistinct [] = Unit
AreDistinct ((i, n) ∷ m) = (contains_key i m ≡ false) × AreDistinct m

module _ {G : Type 0} where
  AllKeys-mono :
      (is : List ℕ) (m n m' n' : Arena G)
      → ((i : ℕ)
          → (contains_key i m || contains_key i n) ≡ true
          → (contains_key i m' || contains_key i n') ≡ true)
      → AllKeys is m n
      → AllKeys is m' n'
  AllKeys-mono [] m n m' n' f h = tt
  AllKeys-mono (i ∷ is) m n m' n' f h = (f i h.0, AllKeys-mono is m n m' n' f h.1)

  -- a node whose children are there already may stand last
  pub PostOrdered-append :
      (seen m : Arena G) (i : ℕ) (n : Node G)
      → PostOrdered seen m
      → AllKeys (ids_of (children n)) m seen
      → PostOrdered seen (m ++ (i, n) ∷ [])
  PostOrdered-append seen [] i n h all = (all, tt)
  PostOrdered-append seen ((j, c) ∷ m) i n h all = (
    h.0,
    PostOrdered-append ((j, c) ∷ seen) m i n h.1 (
        AllKeys-mono (ids_of (children n)) ((j, c) ∷ m) seen m ((j, c) ∷ seen) (λ k e. ground arith)
          all),
  )

  pub IsSound-append :
      (store : ℕ → Node G) (m : Arena G) (n : Node G)
      → IsSound store m
      → store (id_of n) ≡ n
      → IsSound store (m ++ (id_of n, n) ∷ [])
  IsSound-append store [] n h e = (e, refl, tt)
  IsSound-append store ((j, c) ∷ m) n h e = (h.0, h.1, IsSound-append store m n h.2 e)

  pub AreDistinct-append :
      (m : Arena G) (i : ℕ) (n : Node G)
      → AreDistinct m
      → contains_key i m ≡ false
      → AreDistinct (m ++ (i, n) ∷ [])
  AreDistinct-append [] i n h e = (refl, tt)
  AreDistinct-append ((j, c) ∷ m) i n h e = (
    ground (arith, contains_key-append j m ((i, n) ∷ []), h.0, e),
    AreDistinct-append m i n h.1 (ground (arith, e)),
  )

  -- the children of a node that is there are there
  children-AllKeys :
      (store : ℕ → Node G) (seen m : Arena G) (i : ℕ)
      → IsSound store m
      → PostOrdered seen m
      → contains_key i m ≡ true
      → AllKeys (ids_of (children (store i))) m seen
  children-AllKeys store seen [] i s p h = cc
  children-AllKeys store seen ((j, n) ∷ m) i s p h = elim (Bool-cases (j == i)) [
    | inl e ↦
        let same : j ≡ i = (==_iff j i).0 e in
        rw (← same, s.0)
          (AllKeys-mono (ids_of (children n)) [] seen ((j, n) ∷ m) seen (λ k q. ground arith) p.0)
    | inr e ↦
        AllKeys-mono (ids_of (children (store i))) m ((j, n) ∷ seen) ((j, n) ∷ m) seen
          (λ k q. ground arith)
          (children-AllKeys store ((j, n) ∷ seen) m i s.2 p.1 (ground (arith, e, h)))
  ]

  -- a parent's identifier is not met below it
  mutual
    unfolding has_id weight AreStored

    has_id-weight :
        (store : ℕ → Node G) (i : ℕ) (n : Node G)
        → AreStored store n
        → has_id i n ≡ true
        → weight (store i) ≤ weight n
    has_id-weight store i (Node.plan j cs) s h = elim (Bool-cases (j == i)) [
      | inl e ↦ let same : j ≡ i = (==_iff j i).0 e in rw (← same, s.0) (omega arith)
      | inr e ↦ omega (arith, any_has_id-weights store i cs s.1 (ground (arith, e, h)))
    ]
    has_id-weight store i (Node.gadget j g cs) s h = elim (Bool-cases (j == i)) [
      | inl e ↦ let same : j ≡ i = (==_iff j i).0 e in rw (← same, s.0) (omega arith)
      | inr e ↦ omega (arith, any_has_id-weights store i cs s.1 (ground (arith, e, h)))
    ]

    pub any_has_id-weights :
        (store : ℕ → Node G) (i : ℕ) (cs : Nodes G)
        → AllStored store cs
        → any_has_id i cs ≡ true
        → weight (store i) ≤ weights cs
    any_has_id-weights store i Nodes.nil s h = cc
    any_has_id-weights store i (Nodes.cons c cs) s h = elim (Bool-cases (has_id i c)) [
      | inl e ↦ omega (arith, has_id-weight store i c s.0 e)
      | inr e ↦ omega (arith, any_has_id-weights store i cs s.1 (ground (arith, e, h)))
    ]

  -- what is below a node that is there is there
  mutual
    unfolding has_id AreStored

    pub closed :
        (store : ℕ → Node G) (m : Arena G) (j : ℕ) (n : Node G)
        → AreStored store n
        → IsSound store m
        → PostOrdered [] m
        → contains_key (id_of n) m ≡ true
        → has_id j n ≡ true
        → contains_key j m ≡ true
    closed store m j (Node.plan i cs) s sound post there h = elim (Bool-cases (i == j)) [
      | inl e ↦ rw (← (==_iff i j).0 e) there
      | inr e ↦
          closed_all store m j cs s.1 sound post
            (rw s.0 at (children-AllKeys store [] m i sound post there)) (ground (arith, e, h))
    ]
    closed store m j (Node.gadget i g cs) s sound post there h = elim (Bool-cases (i == j)) [
      | inl e ↦ rw (← (==_iff i j).0 e) there
      | inr e ↦
          closed_all store m j cs s.1 sound post
            (rw s.0 at (children-AllKeys store [] m i sound post there)) (ground (arith, e, h))
    ]

    closed_all :
        (store : ℕ → Node G) (m : Arena G) (j : ℕ) (cs : Nodes G)
        → AllStored store cs
        → IsSound store m
        → PostOrdered [] m
        → AllKeys (ids_of cs) m []
        → any_has_id j cs ≡ true
        → contains_key j m ≡ true
    closed_all store m j Nodes.nil s sound post all h = cc
    closed_all store m j (Nodes.cons c cs) s sound post all h = elim (Bool-cases (has_id j c)) [
      | inl e ↦ closed store m j c s.0 sound post (ground (arith, all.0)) e
      | inr e ↦ closed_all store m j cs s.1 sound post all.1 (ground (arith, e, h))
    ]

  has_own_id : (n : Node G) → has_id (id_of n) n ≡ true
  unfolding has_id
  has_own_id (Node.plan i cs) = ground arith
  has_own_id (Node.gadget i g cs) = ground arith

  pub ids-AllKeys :
      (cs : Nodes G) (m : Arena G)
      → ((j : ℕ) → any_has_id j cs ≡ true → contains_key j m ≡ true)
      → AllKeys (ids_of cs) m []
  unfolding any_has_id
  ids-AllKeys Nodes.nil m f = tt
  ids-AllKeys (Nodes.cons c cs) m f =
      (ground (arith, f (id_of c), has_own_id c), ids-AllKeys cs m (λ j h. f j (ground (arith, h))))
