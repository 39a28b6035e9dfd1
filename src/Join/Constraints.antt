-- ===== src/Join/Constraints.antt =====
-- The keys of tables (crates/tt-core/src/irs/nodes/hints.rs and, with the same text,
-- crates/tt-core/src/prover/passes/materialization.rs, which puts them on the schemas of tables) and the
-- test of the gadget against duplicates for columns of a key
-- (crates/tt-core/src/irs/nodes/utils/nodup/mod.rs). Sets of names are sorted lists.
pub mod Keys
pub mod Names
use Prim.Native.String.{compare}
use Prim.Native.Nat.{lt, eq, gt}
use truth_table.Common.{
  ℕ, List, [], ◌∷◌, Option, none, some, map, Bool, true, false, not, ◌&&◌, ◌||◌, if◌then◌else◌,
  String,
}
use truth_table.Table.{activator_col_name, row_id_col_name}
use truth_table.Join.Text.{same_text}

-- `BTreeSet::insert`
abbrev pub insert_name : String → List String → List String
insert_name name [] = name ∷ []
insert_name name (n ∷ names) =
    let rest = insert_name name names in
    elim (compare name n) [ lt ↦ name ∷ n ∷ names | eq ↦ n ∷ names | gt ↦ n ∷ rest ]

abbrev pub name_set : List String → List String
name_set [] = []
name_set (n ∷ names) = insert_name n (name_set names)

abbrev pub contains_name : String → List String → Bool
contains_name name [] = false
contains_name name (n ∷ names) = same_text n name || contains_name name names

-- `get` of a map with names for keys
abbrev pub find_name : {A : Type 0} → String → List (String × A) → Option A
find_name name [] = none
find_name name ((n, a) ∷ entries) =
    let rest = find_name name entries in if same_text n name then some a else rest

pub record ForeignKeyColConstraint : Type 0 where
  pub ref_table : String
  pub ref_columns : List String

pub record TableConstraint : Type 0 where
  pub primary_key_cols : List String
  pub foreign_key_by_col : List (String × ForeignKeyColConstraint)

pub record ColumnConstraintMetadata : Type 0 where
  pub is_pk : Bool
  pub fk_ref_table : Option String
  pub fk_ref_columns : List String

abbrev fk_table : Option ForeignKeyColConstraint → Option String
fk_table none = none
fk_table (some fk) = some fk.ref_table

abbrev fk_columns : Option ForeignKeyColConstraint → List String
fk_columns none = []
fk_columns (some fk) = fk.ref_columns

-- what `column_constraint_metadata` makes of the table's constraints
abbrev pub metadata_of : TableConstraint → String → ColumnConstraintMetadata
metadata_of table column_key = record {
  is_pk = contains_name column_key table.primary_key_cols;
  fk_ref_table = fk_table (find_name column_key table.foreign_key_by_col);
  fk_ref_columns = fk_columns (find_name column_key table.foreign_key_by_col);
}

abbrev pub pk_metadata_key : String
pk_metadata_key = "tt.pk"

abbrev pub fk_ref_table_metadata_key : String
fk_ref_table_metadata_key = "tt.fk.ref_table"

abbrev pub fk_ref_columns_metadata_key : String
fk_ref_columns_metadata_key = "tt.fk.ref_columns"

-- a map of texts, as its entries; an entry in front hides the others of its key
abbrev pub Metadata : Type 0
Metadata = List (String × String)

-- `to_lowercase` and the JSON of a list of texts
pub record Library : Type 0 where
  pub to_lowercase : String → String
  pub strings_to_json : List String → Option String
  pub strings_from_json : String → Option (List String)

module _ (lib : Library) (by_table : List (String × TableConstraint)) where
  abbrev of_table : Option TableConstraint → String → Option ColumnConstraintMetadata
  of_table none column_key = none
  of_table (some table) column_key = some (metadata_of table column_key)

  -- the lookup of a table whose name has been normalised
  unfoldable pub column_constraint_metadata : String → String → Option ColumnConstraintMetadata
  column_constraint_metadata table_key column_name =
      of_table (find_name table_key by_table) (lib.to_lowercase column_name)

  abbrev pub with_pk : Bool → Metadata → Metadata
  with_pk b metadata = if b then (pk_metadata_key, "true") ∷ metadata else metadata

  abbrev pub with_ref_columns : Option String → Metadata → Metadata
  with_ref_columns none metadata = metadata
  with_ref_columns (some json) metadata = (fk_ref_columns_metadata_key, json) ∷ metadata

  abbrev pub with_fk : Option ForeignKeyColConstraint → Metadata → Metadata
  with_fk none metadata = metadata
  with_fk (some fk) metadata =
      with_ref_columns (lib.strings_to_json fk.ref_columns)
        ((fk_ref_table_metadata_key, fk.ref_table) ∷ metadata)

  abbrev pub with_constraint : Option TableConstraint → String → Metadata → Metadata
  with_constraint none column_key metadata = metadata
  with_constraint (some table) column_key metadata =
      with_fk (find_name column_key table.foreign_key_by_col)
        (with_pk (contains_name column_key table.primary_key_cols) metadata)

  unfoldable pub apply_constraint_metadata : Metadata → String → String → Metadata
  apply_constraint_metadata metadata table_name column_name =
      with_constraint (find_name table_name by_table) (lib.to_lowercase column_name) metadata

-- a column of the gadget's input: its name and its metadata
pub record InputField : Type 0 where
  pub name : String
  pub metadata : Metadata

abbrev pub is_data_field : InputField → Bool
is_data_field f =
    not (same_text f.name activator_col_name) && not (same_text f.name row_id_col_name)

abbrev pub data_fields : List InputField → List InputField
data_fields [] = []
data_fields (f ∷ fs) = let rest = data_fields fs in if is_data_field f then f ∷ rest else rest

abbrev pub is_yes : (String → String) → Option String → Bool
is_yes to_ascii_lowercase none = false
is_yes to_ascii_lowercase (some value) =
    let v = to_ascii_lowercase value in same_text v "true" || (same_text v "1" || same_text v "yes")

abbrev pub all_pk : (String → String) → List InputField → Bool
all_pk to_ascii_lowercase [] = true
all_pk to_ascii_lowercase (f ∷ fs) =
    is_yes to_ascii_lowercase (find_name pk_metadata_key f.metadata) && all_pk to_ascii_lowercase fs

abbrev pub any_field : List InputField → Bool
any_field [] = false
any_field (f ∷ fs) = true

unfoldable pub nodup_input_is_pk : (String → String) → List InputField → Bool
nodup_input_is_pk to_ascii_lowercase fields =
    any_field (data_fields fields) && all_pk to_ascii_lowercase (data_fields fields)
