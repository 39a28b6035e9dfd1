-- ===== src/Gadgets/BinEq/Tables.antt =====
-- The tables that `=` and `<>` make of their inputs, and what their children find in their payloads
-- (crates/tt-core/src/irs/nodes/plan/exprs/binary_expr/gadget/bin_eq/mod.rs, bin_neq/mod.rs).
use truth_table.Common.{
  ℕ, ◌≡◌, inl, inr, refl, ap, ◌∙◌, List, [], ◌∷◌, some, Bool, true, false, arith, Bool-cases,
}
use truth_table.Datafusion.Host.{Host}
use truth_table.Datafusion.Arrow.{Field}
use truth_table.Field.{PrimeField}
use truth_table.Sign.Column.{Poly}
use truth_table.Table.{
  TrackedTable, is_system_column, name_of, insert, find_activator, activator_tracked_poly,
  with_activator_entry,
}
use truth_table.Table.Fold.{data_polys}
use truth_table.Gadgets.Strict.Rows.{entry-data_polys, entry-activator}
use truth_table.Gadgets.BinEq.{copied, verifier_log_size, build_table}

verifier_log_size-same : (n : ℕ) → verifier_log_size n n ≡ n
verifier_log_size-same n = ground arith

module _ {h : Host} {P : Type 0} (eqb : Field h → Field h → Bool) where
  copied-none :
      (polys acc : List (Field h × P)) → data_polys polys ≡ [] → copied eqb polys acc ≡ acc
  unfolding copied
  copied-none [] acc e = refl
  copied-none ((f, p) ∷ polys) acc e = elim (Bool-cases (is_system_column (name_of f))) [
    | inl system ↦ rw system (copied-none polys acc (rw (system, data_polys) at (e)))
    | inr other ↦
        (let found : p ∷ data_polys polys ≡ [] = rw (other, data_polys) at (e) in absurd (cc found))
  ]

  -- the one data column of a table is what is copied of it
  copied-one :
      (polys : List (Field h × P)) (p : P)
      → data_polys polys ≡ p ∷ []
      → (f : Field h) × (copied eqb polys [] ≡ (f, p) ∷ []) × (is_system_column (name_of f) ≡ false)
  unfolding copied insert
  copied-one [] p e = cc
  copied-one ((f, q) ∷ polys) p e = elim (Bool-cases (is_system_column (name_of f))) [
    | inl system ↦
        (let (g, made, other) = copied-one polys p (rw (system, data_polys) at (e)) in
          (g, rw system made, other))
    | inr other ↦
        (let found : q ∷ data_polys polys ≡ p ∷ [] = rw (other, data_polys) at (e) in
          let same : q ≡ p = cc found in
          let rest : data_polys polys ≡ [] = cc found in
          (f, rw other (copied-none polys ((f, q) ∷ []) rest ∙ ap (λ x. (f, x) ∷ []) same), other))
  ]

module _ {h : Host} {k : PrimeField} (eqb : Field h → Field h → Bool)
    (eqb-≡ : (f g : Field h) → eqb f g ≡ true → f ≡ g) where
  abbrev pub built : ℕ → Poly k → TrackedTable h k → TrackedTable h k
  built = build_table k eqb verifier_log_size

  pub build_table-polys :
      (n : ℕ) (activator : Poly k) (t : TrackedTable h k) (p : Poly k)
      → data_polys t.tracked_polys ≡ p ∷ []
      → (data_polys (built n activator t).tracked_polys ≡ p ∷ [])
        × (activator_tracked_poly k (built n activator t) ≡ some activator)
  unfolding build_table activator_tracked_poly
  build_table-polys n activator t p e =
      let (f, made, other) = copied-one eqb t.tracked_polys p e in
      (
        ap (λ polys. data_polys (with_activator_entry eqb (some activator) polys)) made
            ∙ entry-data_polys eqb eqb-≡ (some activator) f p other,
        ap (λ polys. find_activator (with_activator_entry eqb (some activator) polys)) made
            ∙ entry-activator eqb eqb-≡ (some activator) f p other,
      )

  pub build_table-size :
      (n : ℕ) (activator : Poly k) (t : TrackedTable h k)
      → t.log_size ≡ n
      → (built n activator t).log_size ≡ n
  unfolding build_table
  build_table-size n activator t e = ap (λ m. verifier_log_size m n) e ∙ verifier_log_size-same n
