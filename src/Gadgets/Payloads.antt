-- ===== src/Gadgets/Payloads.antt =====
-- Entries of payloads, which are index maps with texts as keys (crates/tt-core/src/irs/payloads.rs).
use text.Mathlib.TextEquality.{path_by_compare}
use Prim.Native.String.{compare}
use Prim.Native.Nat.{Ordering, lt, eq, gt}
use truth_table.Common.{
  ◌≡◌, refl, ap, ◌∙◌, List, [], ◌∷◌, some, String, true, false, Bool-cases, inl, inr,
}
use truth_table.Join.Constraints.{find_name}
use truth_table.Join.Text.{same_text}
use truth_table.Table.{insert}

pub same_text-≡ : (s t : String) → same_text s t ≡ true → s ≡ t
same_text-≡ s t e = go (compare s t) refl e
  where
    go :
        (o : Ordering)
        → compare s t ≡ o
        → (elim o [ lt ↦ false | eq ↦ true | gt ↦ false ]) ≡ true
        → s ≡ t
    go eq c same = path_by_compare s t c
    go lt c same = cc
    go gt c same = cc

module _ {T : Type 0} where
  pub find_name-insert :
      (key : String) (t : T) (m : List (String × T))
      → same_text key key ≡ true
      → find_name key (insert same_text key t m) ≡ some t
  unfolding insert
  find_name-insert key t [] same = rw same refl
  find_name-insert key t ((j, w) ∷ m) same = elim (Bool-cases (same_text j key)) [
    | inl here ↦ rw (here, find_name) (rw here refl)
    | inr other ↦ rw (other, find_name) (rw other (find_name-insert key t m same))
  ]

  -- another key keeps its entry
  pub find_name-insert_other :
      (key other : String) (t : T) (m : List (String × T))
      → same_text other key ≡ false
      → find_name key (insert same_text other t m) ≡ find_name key m
  unfolding insert
  find_name-insert_other key other t [] apart = rw apart refl
  find_name-insert_other key other t ((j, w) ∷ m) apart = elim (Bool-cases (same_text j other)) [
    | inl here ↦
        (let e : same_text j key ≡ false =
            ap (λ s. same_text s key) (same_text-≡ j other here) ∙ apart in
          rw (here, find_name) (rw e refl))
    | inr elsewhere ↦ elim (Bool-cases (same_text j key)) [
      | inl found ↦ rw (elsewhere, find_name) (rw found refl)
      | inr missed ↦
          rw (elsewhere, find_name) (rw missed (find_name-insert_other key other t m apart))
    ]
  ]
