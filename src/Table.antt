-- ===== src/Table.antt =====
-- Tracked tables and table oracles (crates/tt-arithmetic/src/table.rs, table_oracle.rs). A table of
-- polynomials and one of oracles are the same here. An `IndexMap` is the list of its entries in order;
-- `==` of fields is an argument. `none` is the panic on an index out of bounds or a missing challenge;
-- debug assertions are left out.
pub mod Fold
use truth_table.Common.{
  ℕ, zero, suc, ◌+◌, ◌*◌, ◌^◌, List, [], ◌∷◌, ◌++◌, Option, none, some, Bool, true, false, not,
  ◌||◌, String, get_elem?, length, if◌then◌else◌,
}
use truth_table.Datafusion.Host.{Host}
use truth_table.Datafusion.Arrow.{DataType, Field, Schema}
use truth_table.Field.{PrimeField}
use truth_table.Sign.Column.{Poly, TrackedCol}
use truth_table.Join.Text.{same_text}

abbrev pub activator_col_name : String
activator_col_name = "__activator__"

abbrev pub row_id_col_name : String
row_id_col_name = "__row_id__"

unfoldable pub is_system_column : String → Bool
is_system_column name = same_text name activator_col_name || same_text name row_id_col_name

abbrev pub name_of : {h : Host} → Field h → String
name_of (Field.field name t nullable metadata) = name

abbrev pub data_type_of : {h : Host} → Field h → DataType h
data_type_of (Field.field name t nullable metadata) = t

abbrev pub activator_field : (h : Host) → Field h
activator_field h = Field.field activator_col_name DataType.boolean true (h.metadata_collect [])

-- `IndexMap::insert` and `get`, with the equality of the keys
module _ {K V : Type 0} (eqb : K → K → Bool) where
  unfoldable pub insert : K → V → List (K × V) → List (K × V)
  insert key v [] = (key, v) ∷ []
  insert key v ((j, w) ∷ m) =
      let rest = insert key v m in if eqb j key then (j, v) ∷ m else (j, w) ∷ rest

  unfoldable pub get : K → List (K × V) → Option V
  get key [] = none
  get key ((j, w) ∷ m) = let rest = get key m in if eqb j key then some w else rest

pub record TrackedTable (h : Host) (k : PrimeField) : Type 0 where
  pub schema : Option (Schema h)
  pub tracked_polys : List (Field h × Poly k)
  pub log_size : ℕ

-- the column that `fold` makes, which has no field
pub record FoldedCol (k : PrimeField) : Type 0 where
  pub data_poly : Poly k
  pub activator : Option (Poly k)

module _ {h : Host} {P : Type 0} where
  abbrev pub find_activator : List (Field h × P) → Option (P)
  find_activator [] = none
  find_activator ((f, p) ∷ polys) =
      let rest = find_activator polys in
      if same_text (name_of f) activator_col_name then some p else rest

  -- the indices, from `idx` on, of the columns that are not the system's
  unfoldable pub indices_from : ℕ → List (Field h × P) → List ℕ
  unfolding is_system_column
  indices_from idx [] = []
  indices_from idx ((f, p) ∷ polys) =
      let rest = indices_from (idx + 1) polys in
      if is_system_column (name_of f) then rest else idx ∷ rest

abbrev pub with_activator :
    (k : PrimeField) → Option (Poly k) → Option (Poly k) → Option (FoldedCol k)
with_activator k activator none = none
with_activator k activator (some p) = some (record { data_poly = p; activator = activator })

module _ {h : Host} (k : PrimeField) where
  -- the number of rows
  unfoldable pub size : TrackedTable h k → ℕ
  size t = 2 ^ t.log_size

  unfoldable pub activator_tracked_poly : TrackedTable h k → Option (Poly k)
  activator_tracked_poly t = find_activator t.tracked_polys

  unfoldable pub data_tracked_polys_indices : TrackedTable h k → List ℕ
  data_tracked_polys_indices t = indices_from 0 t.tracked_polys

  abbrev pub col_of : Option (Poly k) → Option (Field h × Poly k) → Option (TrackedCol h k)
  col_of activator none = none
  col_of activator (some (f, p)) =
      some (record { data_poly = p; activator = activator; data_type = data_type_of f })

  unfoldable pub tracked_col_by_ind : TrackedTable h k → ℕ → Option (TrackedCol h k)
  unfolding activator_tracked_poly
  tracked_col_by_ind t ind = col_of (activator_tracked_poly t) (get_elem? t.tracked_polys ind)

  abbrev pub consed_col :
      Option (TrackedCol h k) → Option (List (TrackedCol h k)) → Option (List (TrackedCol h k))
  consed_col none rest = none
  consed_col (some c) none = none
  consed_col (some c) (some cs) = some (c ∷ cs)

  unfoldable pub tracked_col_by_indices : TrackedTable h k → List ℕ → Option (List (TrackedCol h k))
  unfolding tracked_col_by_ind
  tracked_col_by_indices t [] = some []
  tracked_col_by_indices t (i ∷ is) =
      consed_col (tracked_col_by_ind t i) (tracked_col_by_indices t is)

  -- the loop of `fold` over the columns and challenges after the first
  unfoldable pub fold_rest : List (Field h × Poly k) → List ℕ → List k.F → Poly k → Option (Poly k)
  fold_rest polys [] challs folded = some folded
  fold_rest polys (i ∷ is) [] folded = some folded
  fold_rest polys (i ∷ is) (chall ∷ challs) folded = elim (get_elem? polys i) [
    | none ↦ none
    | some (f, p) ↦ fold_rest polys is challs (λ row. k.add (folded row) (k.mul (p row) chall))
  ]

  -- `fold` once the first column is there
  abbrev pub fold_from : List (Field h × Poly k) → Poly k → List ℕ → List k.F → Option (Poly k)
  fold_from polys p [] challs = some p
  fold_from polys p (i ∷ is) [] = none
  fold_from polys p (i ∷ is) (chall ∷ challs) =
      fold_rest polys (i ∷ is) challs (λ row. k.mul (p row) chall)

  unfoldable pub fold_polys : List (Field h × Poly k) → List ℕ → List k.F → Option (Poly k)
  unfolding fold_rest
  fold_polys polys [] challs = none
  fold_polys polys (first ∷ is) challs = elim (get_elem? polys first) [
    | none ↦ none
    | some (f, p) ↦ fold_from polys p is challs
  ]

  unfoldable pub fold : TrackedTable h k → List ℕ → List k.F → Option (FoldedCol k)
  unfolding fold_polys activator_tracked_poly
  fold t col_inds challs =
      with_activator k (activator_tracked_poly t) (fold_polys t.tracked_polys col_inds challs)

  unfoldable pub fold_all_data_columns : TrackedTable h k → List k.F → Option (FoldedCol k)
  unfolding fold data_tracked_polys_indices
  fold_all_data_columns t challs = fold t (data_tracked_polys_indices t) challs

module _ {h : Host} {P : Type 0} (eqb : Field h → Field h → Bool) where
  abbrev pub with_activator_entry : Option P → List (Field h × P) → List (Field h × P)
  with_activator_entry none polys = polys
  with_activator_entry (some a) polys = insert eqb (activator_field h) a polys

-- a polynomial has the number of its variables beside it
unfoldable pub single_column_with_activator :
    {h : Host} (k : PrimeField)
    → (Field h → Field h → Bool)
    → Field h
    → ℕ
    → Poly k
    → Option (Poly k)
    → TrackedTable h k
unfolding insert
single_column_with_activator k eqb f log_size data_poly activator = record {
  schema = none;
  tracked_polys = with_activator_entry eqb activator ((f, data_poly) ∷ []);
  log_size = log_size;
}
