-- ===== src/Join/Constraints/Names.antt =====
-- Sets of names as sorted lists (`BTreeSet`), and what their equality says.
use Prim.Native.String.{compare}
use Prim.Native.Nat.{Ordering, lt, eq, gt}
use text.Mathlib.TextEquality.{path_by_compare}
use truth_table.Common.{
  ◌≡◌, refl, sym, ap₂, ◌∙◌, ◌↔◌, ◌⊎◌, inl, inr, List, [], ◌∷◌, Bool, true, false, String, &&_split,
}
use truth_table.Join.Text.{same_text}
use truth_table.Join.Constraints.{insert_name, name_set}
use truth_table.Join.Modes.{same_names}

abbrev pub In : String → List String → Type 0
In s [] = ⊥
In s (n ∷ names) = (n ≡ s) ⊎ In s names

same_text-eq : (s t : String) → same_text s t ≡ true → s ≡ t
same_text-eq s t = go (compare s t) refl
  where
    go :
        (o : Ordering)
        → compare s t ≡ o
        → ◌≡◌ {A = Bool} (elim o [ lt ↦ false | eq ↦ true | gt ↦ false ]) true
        → s ≡ t
    go Ordering.lt e f = cc
    go Ordering.eq e f = path_by_compare s t e
    go Ordering.gt e f = cc

pub same_names-eq : (ms ns : List String) → same_names ms ns ≡ true → ms ≡ ns
same_names-eq [] [] e = refl
same_names-eq [] (n ∷ ns) e = cc
same_names-eq (m ∷ ms) [] e = cc
same_names-eq (m ∷ ms) (n ∷ ns) e =
    let (head, rest) = &&_split (same_text m n) (same_names ms ns) e in
    ap₂ (λ x xs. x ∷ xs) (same_text-eq m n head) (same_names-eq ms ns rest)

In-insert_name :
    (s name : String) (names : List String) → In s (insert_name name names) ↔ In s (name ∷ names)
In-insert_name s name [] = ((λ i. i), (λ i. i))
In-insert_name s name (n ∷ names) = go (compare name n) refl (In-insert_name s name names)
  where
    go :
        (o : Ordering)
        → compare name n ≡ o
        → In s (insert_name name names) ↔ In s (name ∷ names)
        → In s (elim o [ lt ↦ name ∷ n ∷ names | eq ↦ n ∷ names | gt ↦ n ∷ insert_name name names ])
          ↔ In s (name ∷ n ∷ names)
    go Ordering.lt e ih = ((λ i. i), (λ i. i))
    go Ordering.eq e ih = (
      (λ i. inr i),
      (λ i. elim i [ inl p ↦ inl (sym (path_by_compare name n e) ∙ p) | inr r ↦ r ]),
    )
    go Ordering.gt e ih = (
      (λ i. elim i [
        | inl p ↦ inr (inl p)
        | inr r ↦ elim (ih.0 r) [ inl p ↦ inl p | inr q ↦ inr (inr q) ]
      ]),
      (λ i. elim i [
        | inl p ↦ inr (ih.1 (inl p))
        | inr r ↦ elim r [ inl p ↦ inl p | inr q ↦ inr (ih.1 (inr q)) ]
      ]),
    )

pub In-name_set : (s : String) (names : List String) → In s (name_set names) ↔ In s names
In-name_set s [] = ((λ i. i), (λ i. i))
In-name_set s (n ∷ names) =
    let insert = In-insert_name s n (name_set names) in
    let rest = In-name_set s names in
    (
      (λ i. elim (insert.0 i) [ inl p ↦ inl p | inr r ↦ inr (rest.0 r) ]),
      (λ i. insert.1 (elim i [ inl p ↦ inl p | inr r ↦ inr (rest.1 r) ])),
    )
