-- ===== src/Gadgets/Compare/Initialize.antt =====
-- What `initialize_gadgets` leaves for the sign gadget
-- (crates/tt-core/src/irs/nodes/utils/leq/mod.rs, geq/mod.rs).
use truth_table.Common.{
  ℕ, suc, ◌+◌, ◌≡◌, refl, sym, ap, ◌∙◌, List, [], ◌∷◌, Option, none, some, Bool, true, false, ◌||◌,
  String, ok, get_elem?, ◌==◌, arith, Bool-cases, inl, inr,
}
use truth_table.Datafusion.Host.{Host}
use truth_table.Datafusion.Arrow.{Field}
use truth_table.Field.{PrimeField, sub_F}
use truth_table.Sign.Column.{Poly, TrackedCol}
use truth_table.Sign.Node.{input_label}
use truth_table.Ir.Passes.{Ir, payload_for_node, set_payload_for_node}
use truth_table.Ir.PayloadPasses.Filled.{get-insert}
use truth_table.Ir.GadgetPasses.{PayloadStructure}
use truth_table.Join.Constraints.{find_name}
use truth_table.Join.Text.{same_text}
use truth_table.Table.{
  TrackedTable, is_system_column, name_of, data_type_of, insert, indices_from, activator_field,
  activator_col_name, row_id_col_name, activator_tracked_poly, data_tracked_polys_indices,
  tracked_col_by_ind, tracked_col_by_indices, single_column_with_activator,
}
use truth_table.Table.Fold.{data_polys}
use truth_table.Gadgets.{payload_input}
use truth_table.Gadgets.Payloads.{find_name-insert}
use truth_table.Gadgets.Claims.{true_ne_false}
use truth_table.Gadgets.Equality.{left_label, right_label}
use truth_table.Gadgets.Compare.{
  first, data_field, sign_payload, data_cols, data_col, diff_table, set_sign_payload,
  initialize_gadgets,
}

==-self : (n : ℕ) → (n == n) ≡ true
==-self n = ground arith

pub payload_for_node-set :
    {G P : Type 0} (id : ℕ) (p : P) (ir : Ir G P)
    → payload_for_node (set_payload_for_node id (some p) ir) id ≡ some p
unfolding set_payload_for_node
payload_for_node-set id p ir = rw (get-insert id id (some p) ir.payloads, ==-self id) refl

module _ {h : Host} {P : Type 0} where
  -- the first data column, where there is one
  abbrev pub FirstData : List (Field h × P) → ℕ → List (Field h × P) → P → Type 0
  FirstData all idx polys p =
      (i : ℕ) × (f : Field h) × (first (indices_from idx polys) ≡ some i)
      × (get_elem? all i ≡ some (f, p))
      × (data_field polys ≡ some f)
      × (is_system_column (name_of f) ≡ false)

  pub first_data :
      (all : List (Field h × P)) (idx : ℕ) (polys : List (Field h × P)) (p : P) (ps : List P)
      → ((j : ℕ) → get_elem? all (idx + j) ≡ get_elem? polys j)
      → data_polys polys ≡ p ∷ ps
      → FirstData all idx polys p
  unfolding indices_from
  first_data all idx [] p ps found e = cc
  first_data all idx ((f, q) ∷ polys) p ps found e =
      elim (Bool-cases (is_system_column (name_of f))) [
        | inl system ↦
            (let (i, g, at, here, named, not_system) =
                first_data all (idx + 1) polys p ps
                  (λ j.
                    let next : idx + 1 + j ≡ idx + suc j = omega arith in
                    ap (get_elem? all) next ∙ found (suc j))
                  (rw (system, data_polys) at (e)) in
              (i, g, rw system at, here, rw (system, data_field) named, not_system))
        | inr other ↦
            (let next : idx ≡ idx + 0 = omega arith in
              let same : q ≡ p = cc (rw (other, data_polys) at (e)) in
              (
                idx,
                f,
                rw other refl,
                ap (get_elem? all) next ∙ found 0 ∙ ap (λ x. some (f, x)) same,
                rw (other, data_field) refl,
                other,
              ))
      ]

module _ {h : Host} where
  pub not_activator_name :
      (f : Field h)
      → is_system_column (name_of f) ≡ false
      → same_text (name_of f) activator_col_name ≡ false
  unfolding is_system_column
  not_activator_name f other = elim (Bool-cases (same_text (name_of f) activator_col_name)) [
    | inl same ↦
        absurd
          (true_ne_false (sym (ap (λ b. b || same_text (name_of f) row_id_col_name) same) ∙ other))
    | inr apart ↦ apart
  ]

  module _ (eqb : Field h → Field h → Bool) (eqb-≡ : (f g : Field h) → eqb f g ≡ true → f ≡ g) where
    pub not_activator_field :
        (f : Field h) → is_system_column (name_of f) ≡ false → eqb f (activator_field h) ≡ false
    unfolding is_system_column
    not_activator_field f other = elim (Bool-cases (eqb f (activator_field h))) [
      | inl same ↦
          (let e : is_system_column (name_of f) ≡ true =
              ap (λ g. is_system_column (name_of g)) (eqb-≡ f (activator_field h) same) in
            absurd (true_ne_false (sym e ∙ other)))
      | inr apart ↦ apart
    ]

module _ {h : Host} {k : PrimeField} where
  abbrev pub col : Poly k → Option (Poly k) → Field h → TrackedCol h k
  col p activator f = record { data_poly = p; activator = activator; data_type = data_type_of f }

  pub first_col :
      (t : TrackedTable h k) (p : Poly k) (ps : List (Poly k))
      → data_polys t.tracked_polys ≡ p ∷ ps
      → (f : Field h) × (data_col t ≡ ok (col p (activator_tracked_poly k t) f))
        × (data_field t.tracked_polys ≡ some f)
        × (is_system_column (name_of f) ≡ false)
  unfolding data_col data_tracked_polys_indices tracked_col_by_ind
  first_col t p ps e =
      let (i, f, at, here, named, other) =
        first_data t.tracked_polys 0 t.tracked_polys p ps
          (λ j. let same : 0 + j ≡ j = omega arith in ap (get_elem? t.tracked_polys) same) e in
      (f, rw (at, here) refl, named, other)

  module _ (eqb : Field h → Field h → Bool) (eqb-≡ : (f g : Field h) → eqb f g ≡ true → f ≡ g) where
    -- the columns of a table made of a column and an activator
    single_column-data_cols :
        (f : Field h) (n : ℕ) (p : Poly k) (activator : Option (Poly k))
        → is_system_column (name_of f) ≡ false
        → data_cols (single_column_with_activator k eqb f n p activator)
          ≡ some (col p activator f ∷ [])
    unfolding single_column_with_activator data_tracked_polys_indices tracked_col_by_indices
        tracked_col_by_ind activator_tracked_poly indices_from insert
    single_column-data_cols f n p none other = rw (other, not_activator_name f other) refl
    single_column-data_cols f n p (some a) other =
        rw (not_activator_field eqb eqb-≡ f other, other, not_activator_name f other) refl

    -- After the initialization of a gadget whose inputs have a data column each, the sign gadget has a
    -- table of one data column: the difference of the first data columns of the inputs.
    pub initialize_gadgets-data_cols :
        {G : Type 0} (id sign_id : ℕ) (ir : Ir G (PayloadStructure (TrackedTable h k)))
        (payload : List (String × TrackedTable h k)) (left right : TrackedTable h k) (l r : Poly k)
        (ls rs : List (Poly k))
        → payload_for_node ir id ≡ some (PayloadStructure.gadget_payload payload)
        → find_name left_label payload ≡ some left
        → find_name right_label payload ≡ some right
        → data_polys left.tracked_polys ≡ l ∷ ls
        → data_polys right.tracked_polys ≡ r ∷ rs
        → (ir' : Ir G (PayloadStructure (TrackedTable h k))) × (t : TrackedTable h k) × (f : Field
            h)
          × (initialize_gadgets eqb id sign_id ir ≡ ok ir')
          × (payload_input (payload_for_node ir' sign_id) input_label ≡ some t)
          × (data_cols t
              ≡ some (col (λ i. sub_F k (l i) (r i)) (activator_tracked_poly k left) f ∷ []))
          × (data_field left.tracked_polys ≡ some f)
    unfolding initialize_gadgets diff_table payload_input
    initialize_gadgets-data_cols id sign_id ir payload left right l r ls rs here l_in r_in l_e r_e =
        let (f, l_col, named, other) = first_col left l ls l_e in
        let (g, r_col, r_named, r_other) = first_col right r rs r_e in
        let t =
          single_column_with_activator k eqb f left.log_size (λ i. sub_F k (l i) (r i))
            (activator_tracked_poly k left) in
        (
          set_sign_payload sign_id ir t,
          t,
          f,
          rw (here, l_in, r_in, l_col, r_col, named) refl,
          ap (λ o. payload_input o input_label)
                (payload_for_node-set sign_id
                  (PayloadStructure.gadget_payload
                    (insert same_text input_label t (sign_payload (payload_for_node ir sign_id))))
                  ir)
              ∙ find_name-insert input_label t (sign_payload (payload_for_node ir sign_id)) refl,
          single_column-data_cols f left.log_size (λ i. sub_F k (l i) (r i))
              (activator_tracked_poly k left) other,
          named,
        )
