-- ===== src/Ir/JoinModes/Applied.antt =====
-- The modes of a list of joins, set in a store one after another: what `apply_join_modes` of
-- crates/tt-core/src/irs/codec.rs does to the joins of a tree.
use truth_table.Common.{
  ℕ, suc, ◌+◌, ◌≡◌, refl, sym, ap, ap₂, ◌∙◌, List, [], ◌∷◌, ◌++◌, map, length, Option, none, some,
  ◌==◌, get_elem?, arith, ==_iff, Bool-cases, inl, inr,
}
use truth_table.Codec.Enums.{
  JoinMode, JoinModeRepr, from_join_mode, to_join_mode, to_join_mode-from_join_mode,
}
use truth_table.Ir.JoinModes.{Store, set_join_mode, mode_or_default}

abbrev pub set_one : JoinMode → Option ℕ → Store → Store
set_one mode none store = store
set_one mode (some i) store = set_join_mode i mode store

abbrev pub set_at : Option JoinModeRepr → Option ℕ → Store → Store
set_at none o store = store
set_at (some repr) o store = set_one (to_join_mode repr) o store

abbrev pub apply_list : List JoinModeRepr → List (Option ℕ) → Store × ℕ → Store × ℕ
apply_list modes [] s = s
apply_list modes (o ∷ os) s = apply_list modes os (set_at (get_elem? modes s.1) o s.0, 1 + s.1)

pub apply_list-append :
    (modes : List JoinModeRepr) (xs ys : List (Option ℕ)) (s : Store × ℕ)
    → apply_list modes (xs ++ ys) s ≡ apply_list modes ys (apply_list modes xs s)
apply_list-append modes [] ys s = refl
apply_list-append modes (x ∷ xs) ys s = apply_list-append modes xs ys _

pub apply_list-length :
    (modes : List JoinModeRepr) (os : List (Option ℕ)) (s : Store × ℕ)
    → (apply_list modes os s).1 ≡ s.1 + length os
apply_list-length modes [] s = omega arith
apply_list-length modes (o ∷ os) s =
    let ih = apply_list-length modes os (set_at (get_elem? modes s.1) o s.0, 1 + s.1) in
    omega (arith, ih)

abbrev pub repr_of : Store → Option ℕ → JoinModeRepr
repr_of store o = from_join_mode (mode_or_default store o)

-- what the list of joins keeps of a store
abbrev pub AreKept : Store → Store → List (Option ℕ) → Type 0
AreKept store now [] = Unit
AreKept store now (o ∷ os) =
    (mode_or_default now o ≡ mode_or_default store o) × AreKept store now os

set_join_mode-mode :
    (store now : Store) (i j : ℕ)
    → now.mode j ≡ store.mode j
    → (set_join_mode i (store.mode i) now).mode j ≡ store.mode j
unfolding set_join_mode
set_join_mode-mode store now i j e = elim (Bool-cases (j == i)) [
  | inl same ↦ rw same (ap store.mode (sym ((==_iff j i).0 same)))
  | inr other ↦ rw other e
]

set_one-kept :
    (store now : Store) (o p : Option ℕ)
    → mode_or_default now p ≡ mode_or_default store p
    → mode_or_default (set_one (mode_or_default store o) o now) p ≡ mode_or_default store p
set_one-kept store now none p e = e
set_one-kept store now (some i) none e = refl
set_one-kept store now (some i) (some j) e = set_join_mode-mode store now i j e

set_one-own :
    (store now : Store) (o : Option ℕ)
    → mode_or_default (set_one (mode_or_default store o) o now) o ≡ mode_or_default store o
unfolding set_join_mode
set_one-own store now none = refl
set_one-own store now (some i) = rw ((==_iff i i).1 refl) refl

-- the list from an index on
abbrev pub Reads : List JoinModeRepr → ℕ → List JoinModeRepr → Type 0
Reads modes idx [] = Unit
Reads modes idx (x ∷ xs) = (get_elem? modes idx ≡ some x) × Reads modes (1 + idx) xs

Reads-cons :
    (m : JoinModeRepr) (modes : List JoinModeRepr) (idx : ℕ) (xs : List JoinModeRepr)
    → Reads modes idx xs
    → Reads (m ∷ modes) (1 + idx) xs
Reads-cons m modes idx [] r = tt
Reads-cons m modes idx (x ∷ xs) r =
    let e : 1 + idx ≡ suc idx = omega arith in
    (ap (get_elem? (m ∷ modes)) e ∙ r.0, Reads-cons m modes (1 + idx) xs r.1)

pub Reads-all : (modes : List JoinModeRepr) → Reads modes 0 modes
Reads-all [] = tt
Reads-all (m ∷ modes) = (refl, Reads-cons m modes 0 modes (Reads-all modes))

-- setting the first of the modes that are left
set_next :
    (store : Store) (modes : List JoinModeRepr) (idx : ℕ) (o : Option ℕ) (now : Store)
    → get_elem? modes idx ≡ some (repr_of store o)
    → set_at (get_elem? modes idx) o now ≡ set_one (mode_or_default store o) o now
set_next store modes idx o now e =
    ap (λ m. set_at m o now) e
    ∙ ap (λ m. set_one m o now) (to_join_mode-from_join_mode (mode_or_default store o))

apply_list-kept :
    (store : Store) (modes : List JoinModeRepr) (os : List (Option ℕ)) (p : Option ℕ) (now : Store)
    (idx : ℕ)
    → Reads modes idx (map (repr_of store) os)
    → mode_or_default now p ≡ mode_or_default store p
    → mode_or_default (apply_list modes os (now, idx)).0 p ≡ mode_or_default store p
apply_list-kept store modes [] p now idx r e = e
apply_list-kept store modes (o ∷ os) p now idx r e =
    apply_list-kept store modes os p _ (1 + idx) r.1
      (rw (set_next store modes idx o now r.0) (set_one-kept store now o p e))

pub apply_list-AreKept :
    (store : Store) (modes : List JoinModeRepr) (os : List (Option ℕ)) (now : Store) (idx : ℕ)
    → Reads modes idx (map (repr_of store) os)
    → AreKept store (apply_list modes os (now, idx)).0 os
apply_list-AreKept store modes [] now idx r = tt
apply_list-AreKept store modes (o ∷ os) now idx r = (
  apply_list-kept store modes os o _ (1 + idx) r.1
      (rw (set_next store modes idx o now r.0) (set_one-own store now o)),
  apply_list-AreKept store modes os _ (1 + idx) r.1,
)

pub map-AreKept :
    (store now : Store) (os : List (Option ℕ))
    → AreKept store now os
    → map (repr_of now) os ≡ map (repr_of store) os
map-AreKept store now [] k = refl
map-AreKept store now (o ∷ os) k =
    ap₂ (λ x xs. x ∷ xs) (ap from_join_mode k.0) (map-AreKept store now os k.1)
