-- ===== src/Ir/JoinModes/RoundTrip.antt =====
-- The joins of a tree as a list, and what is read back of their modes (crates/tt-core/src/irs/codec.rs).
use mathlib.Core.List.{append_assoc, append-nil, map-append}
use truth_table.Common.{
  ℕ, ◌+◌, ◌≤◌, ◌≡◌, refl, sym, ap, ◌∙◌, List, [], ◌∷◌, ◌++◌, map, length, Option, none, some, Bool,
  true, false, if◌then◌else◌, get_elem?, arith, length-map, Bool-cases, inl, inr,
}
use truth_table.Codec.Enums.{JoinMode, JoinModeRepr, to_join_mode}
use truth_table.Ir.Nodes.{Node, Nodes}
use truth_table.Ir.JoinModes.{
  Store, set_join_mode, first_join_gadget, mode_or_default, pushed, collect_join_modes, collect_all,
  set_gadgets, set_if_given, applied_here, apply_join_modes, apply_all,
}
use truth_table.Ir.JoinModes.Applied.{
  set_one, set_at, apply_list, repr_of, Reads, apply_list-append, apply_list-length, Reads-all,
  apply_list-AreKept, map-AreKept,
}

module _ {G : Type 0} (is_join : ℕ → Bool) (is_join_gadget : G → Bool) where
  abbrev first : Nodes G → Option ℕ
  first = first_join_gadget is_join is_join_gadget

  abbrev pub count_join_gadgets : Nodes G → ℕ
  count_join_gadgets Nodes.nil = 0
  count_join_gadgets (Nodes.cons (Node.plan i below) cs) = count_join_gadgets cs
  count_join_gadgets (Nodes.cons (Node.gadget i g below) cs) =
      let rest = count_join_gadgets cs in if is_join_gadget g then 1 + rest else rest

  abbrev mutual
    -- no join in the subtree
    pub HasNoJoin : Node G → Type 0
    HasNoJoin (Node.plan i cs) = (is_join i ≡ false) × AllNoJoin cs
    HasNoJoin (Node.gadget i g cs) = AllNoJoin cs

    pub AllNoJoin : Nodes G → Type 0
    AllNoJoin Nodes.nil = Unit
    AllNoJoin (Nodes.cons c cs) = HasNoJoin c × AllNoJoin cs

  abbrev mutual
    -- a plan has one join gadget at most, and no join is below a gadget
    pub IsPlanned : Node G → Type 0
    IsPlanned (Node.plan i cs) = (count_join_gadgets cs ≤ 1) × AllPlanned cs
    IsPlanned (Node.gadget i g cs) = AllNoJoin cs

    pub AllPlanned : Nodes G → Type 0
    AllPlanned Nodes.nil = Unit
    AllPlanned (Nodes.cons c cs) = IsPlanned c × AllPlanned cs

  abbrev consed : Bool → Option ℕ → List (Option ℕ) → List (Option ℕ)
  consed join o os = if join then o ∷ os else os

  abbrev mutual
    -- the join gadgets of the joins, in the order of the walk
    joins_of : Node G → List (Option ℕ)
    joins_of (Node.plan i cs) = consed (is_join i) (first cs) (joins_all cs)
    joins_of (Node.gadget i g cs) = []

    joins_all : Nodes G → List (Option ℕ)
    joins_all Nodes.nil = []
    joins_all (Nodes.cons c cs) = joins_of c ++ joins_all cs

  set_gadgets-none :
      (mode : JoinMode) (cs : Nodes G) (store : Store)
      → count_join_gadgets cs ≡ 0
      → (set_gadgets is_join is_join_gadget mode cs store ≡ store) × (first cs ≡ none)
  unfolding set_gadgets first_join_gadget
  set_gadgets-none mode Nodes.nil store e = (refl, refl)
  set_gadgets-none mode (Nodes.cons (Node.plan i below) cs) store e =
      set_gadgets-none mode cs store e
  set_gadgets-none mode (Nodes.cons (Node.gadget i g below) cs) store e =
      elim (Bool-cases (is_join_gadget g)) [
        | inl found ↦ absurd (omega (arith, rw found at (e)))
        | inr other ↦ rw other (set_gadgets-none mode cs store (rw other at (e)))
      ]

  set_gadgets-set_one :
      (mode : JoinMode) (cs : Nodes G) (store : Store)
      → count_join_gadgets cs ≤ 1
      → set_gadgets is_join is_join_gadget mode cs store ≡ set_one mode (first cs) store
  unfolding set_gadgets first_join_gadget
  set_gadgets-set_one mode Nodes.nil store le = refl
  set_gadgets-set_one mode (Nodes.cons (Node.plan i below) cs) store le =
      set_gadgets-set_one mode cs store le
  set_gadgets-set_one mode (Nodes.cons (Node.gadget i g below) cs) store le =
      elim (Bool-cases (is_join_gadget g)) [
        | inl found ↦
            rw found
              (set_gadgets-none mode cs (set_join_mode i mode store)
                (omega (arith, rw found at (le)))).0
        | inr other ↦ rw other (set_gadgets-set_one mode cs store (rw other at (le)))
      ]

  same_either_way : {A : Type 0} (b : Bool) (x y : A) → y ≡ x → (if b then x else y) ≡ x
  same_either_way true x y e = refl
  same_either_way false x y e = e

  mutual
    unfolding collect_join_modes

    collect-no_join :
        (store : Store) (t : Node G) (out : List JoinModeRepr)
        → HasNoJoin t
        → collect_join_modes is_join is_join_gadget store t out ≡ out
    collect-no_join store (Node.plan i cs) out h = rw h.0 (collect_all-no_join store cs out h.1)
    collect-no_join store (Node.gadget i g cs) out h =
        same_either_way _ out _ (collect_all-no_join store cs out h)

    collect_all-no_join :
        (store : Store) (cs : Nodes G) (out : List JoinModeRepr)
        → AllNoJoin cs
        → collect_all is_join is_join_gadget store cs out ≡ out
    collect_all-no_join store Nodes.nil out h = refl
    collect_all-no_join store (Nodes.cons c cs) out h =
        collect_all-no_join store cs _ h.1 ∙ collect-no_join store c out h.0

  mutual
    unfolding apply_join_modes

    apply-no_join :
        (modes : List JoinModeRepr) (t : Node G) (s : Store × ℕ)
        → HasNoJoin t
        → apply_join_modes is_join is_join_gadget modes t s ≡ s
    apply-no_join modes (Node.plan i cs) s h = rw h.0 (apply_all-no_join modes cs s h.1)
    apply-no_join modes (Node.gadget i g cs) s h =
        same_either_way _ s _ (apply_all-no_join modes cs s h)

    apply_all-no_join :
        (modes : List JoinModeRepr) (cs : Nodes G) (s : Store × ℕ)
        → AllNoJoin cs
        → apply_all is_join is_join_gadget modes cs s ≡ s
    apply_all-no_join modes Nodes.nil s h = refl
    apply_all-no_join modes (Nodes.cons c cs) s h =
        apply_all-no_join modes cs _ h.1 ∙ apply-no_join modes c s h.0

  pushed-consed :
      (store : Store) (join : Bool) (o : Option ℕ) (os : List (Option ℕ)) (out : List JoinModeRepr)
      → pushed join (mode_or_default store o) out ++ map (repr_of store) os
        ≡ out ++ map (repr_of store) (consed join o os)
  pushed-consed store true o os out = append_assoc out _ _
  pushed-consed store false o os out = refl

  mutual
    unfolding collect_join_modes

    collect-joins_of :
        (store : Store) (t : Node G) (out : List JoinModeRepr)
        → IsPlanned t
        → collect_join_modes is_join is_join_gadget store t out
          ≡ out ++ map (repr_of store) (joins_of t)
    collect-joins_of store (Node.plan i cs) out h =
        collect-joins_all store cs _ h.1
        ∙ pushed-consed store (is_join i) (first cs) (joins_all cs) out
    collect-joins_of store (Node.gadget i g cs) out h =
        collect-no_join store (Node.gadget i g cs) out h ∙ sym (append-nil out)

    collect-joins_all :
        (store : Store) (cs : Nodes G) (out : List JoinModeRepr)
        → AllPlanned cs
        → collect_all is_join is_join_gadget store cs out
          ≡ out ++ map (repr_of store) (joins_all cs)
    collect-joins_all store Nodes.nil out h = sym (append-nil out)
    collect-joins_all store (Nodes.cons c cs) out h =
        collect-joins_all store cs _ h.1
        ∙ ap (λ xs. xs ++ map (repr_of store) (joins_all cs)) (collect-joins_of store c out h.0)
        ∙ append_assoc out _ _
        ∙ ap (λ xs. out ++ xs) (sym (map-append (repr_of store) (joins_of c) (joins_all cs)))

  set_if_given-set_at :
      (o : Option JoinModeRepr) (cs : Nodes G) (store : Store)
      → count_join_gadgets cs ≤ 1
      → set_if_given is_join is_join_gadget o cs store ≡ set_at o (first cs) store
  set_if_given-set_at none cs store le = refl
  set_if_given-set_at (some repr) cs store le = set_gadgets-set_one (to_join_mode repr) cs store le

  applied_here-consed :
      (modes : List JoinModeRepr) (join : Bool) (cs : Nodes G) (os : List (Option ℕ))
      (s : Store × ℕ)
      → count_join_gadgets cs ≤ 1
      → apply_list modes os (applied_here is_join is_join_gadget join modes cs s)
        ≡ apply_list modes (consed join (first cs) os) s
  applied_here-consed modes true cs os s le =
      ap (λ store. apply_list modes os (store, 1 + s.1))
        (set_if_given-set_at (get_elem? modes s.1) cs s.0 le)
  applied_here-consed modes false cs os s le = refl

  mutual
    unfolding apply_join_modes

    apply-joins_of :
        (modes : List JoinModeRepr) (t : Node G) (s : Store × ℕ)
        → IsPlanned t
        → apply_join_modes is_join is_join_gadget modes t s ≡ apply_list modes (joins_of t) s
    apply-joins_of modes (Node.plan i cs) s h =
        apply-joins_all modes cs _ h.1
        ∙ applied_here-consed modes (is_join i) cs (joins_all cs) s h.0
    apply-joins_of modes (Node.gadget i g cs) s h = apply-no_join modes (Node.gadget i g cs) s h

    apply-joins_all :
        (modes : List JoinModeRepr) (cs : Nodes G) (s : Store × ℕ)
        → AllPlanned cs
        → apply_all is_join is_join_gadget modes cs s ≡ apply_list modes (joins_all cs) s
    apply-joins_all modes Nodes.nil s h = refl
    apply-joins_all modes (Nodes.cons c cs) s h =
        apply-joins_all modes cs _ h.1
        ∙ ap (apply_list modes (joins_all cs)) (apply-joins_of modes c s h.0)
        ∙ sym (apply_list-append modes (joins_of c) (joins_all cs) s)

  -- In a tree in which a plan has one join gadget at most and no join is below a gadget: the modes that
  -- were collected from one store are those that are collected again after they have been applied to
  -- any other, and applying them reads each of them once.
  pub collect-apply_join_modes :
      (store other : Store) (t : Node G)
      → IsPlanned t
      → (let modes = collect_join_modes is_join is_join_gadget store t [] in
          let applied = apply_join_modes is_join is_join_gadget modes t (other, 0) in
          (collect_join_modes is_join is_join_gadget applied.0 t [] ≡ modes)
          × (applied.1 ≡ length modes))
  collect-apply_join_modes store other t h =
      let os : List (Option ℕ) = joins_of t in
      let modes : List JoinModeRepr = map (repr_of store) os in
      let last = apply_list modes os (other, 0) in
      let read : Reads modes 0 modes = Reads-all modes in
      rw (collect-joins_of store t [] h, apply-joins_of modes t (other, 0) h)
        (
          collect-joins_of last.0 t [] h
              ∙ map-AreKept store last.0 os (apply_list-AreKept store modes os other 0 read),
          omega (arith, apply_list-length modes os (other, 0), length-map os (repr_of store)),
        )
