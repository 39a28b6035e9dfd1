-- ===== src/Join/Constraints/Keys.antt =====
-- Which columns of a table `nodup_input_is_pk` takes for a key
-- (crates/tt-core/src/irs/nodes/utils/nodup/mod.rs).
use truth_table.Common.{
  ◌≡◌, refl, ap, ap₂, ◌∙◌, List, [], ◌∷◌, Option, none, some, Bool, true, false, ◌&&◌, String,
}
use truth_table.Join.Constraints.{
  find_name, contains_name, ForeignKeyColConstraint, TableConstraint, Library, Metadata,
  pk_metadata_key, with_pk, with_ref_columns, with_fk, with_constraint, apply_constraint_metadata,
  InputField, is_data_field, data_fields, is_yes, all_pk, any_field, nodup_input_is_pk,
}

module _ (lib : Library) (by_table : List (String × TableConstraint))
    (to_ascii_lowercase : String → String) where
  -- columns of a table, with the metadata that the table's constraints put on them
  abbrev pub fields_of : String → List String → List InputField
  fields_of table_name [] = []
  fields_of table_name (name ∷ names) =
      record { name = name; metadata = apply_constraint_metadata lib by_table [] table_name name }
      ∷ fields_of table_name names

  abbrev pub any_name : List String → Bool
  any_name [] = false
  any_name (name ∷ names) = true

  abbrev pub all_in_key : TableConstraint → List String → Bool
  all_in_key table [] = true
  all_in_key table (name ∷ names) =
      contains_name (lib.to_lowercase name) table.primary_key_cols && all_in_key table names

  -- no column is the activator or the row number
  abbrev pub AllData : String → List String → Type 0
  AllData table_name [] = Unit
  AllData table_name (name ∷ names) =
      (is_data_field (record { name = name; metadata = [] }) ≡ true) × AllData table_name names

  yes-with_pk :
      (b : Bool)
      → to_ascii_lowercase "true" ≡ "true"
      → is_yes to_ascii_lowercase (find_name pk_metadata_key (with_pk lib by_table b [])) ≡ b
  yes-with_pk true e = rw e refl
  yes-with_pk false e = refl

  find-with_ref_columns :
      (json : Option String) (metadata : Metadata)
      → find_name pk_metadata_key (with_ref_columns lib by_table json metadata)
        ≡ find_name pk_metadata_key metadata
  find-with_ref_columns none metadata = refl
  find-with_ref_columns (some json) metadata = refl

  find-with_fk :
      (o : Option ForeignKeyColConstraint) (metadata : Metadata)
      → find_name pk_metadata_key (with_fk lib by_table o metadata)
        ≡ find_name pk_metadata_key metadata
  find-with_fk none metadata = refl
  find-with_fk (some fk) metadata = find-with_ref_columns (lib.strings_to_json fk.ref_columns) _

  all_pk-fields_of :
      (table_name : String) (table : TableConstraint) (names : List String)
      → to_ascii_lowercase "true" ≡ "true"
      → find_name table_name by_table ≡ some table
      → all_pk to_ascii_lowercase (fields_of table_name names) ≡ all_in_key table names
  unfolding apply_constraint_metadata
  all_pk-fields_of table_name table [] e found = refl
  all_pk-fields_of table_name table (name ∷ names) e found =
      let key : String = lib.to_lowercase name in
      let pk : Bool = contains_name key table.primary_key_cols in
      ap₂ (λ a b. a && b)
        (ap
            (λ o.
              is_yes to_ascii_lowercase
                (find_name pk_metadata_key (with_constraint lib by_table o key [])))
            found
          ∙ ap (is_yes to_ascii_lowercase)
              (find-with_fk (find_name key table.foreign_key_by_col) (with_pk lib by_table pk []))
          ∙ yes-with_pk pk e)
        (all_pk-fields_of table_name table names e found)

  data_fields-fields_of :
      (table_name : String) (names : List String)
      → AllData table_name names
      → data_fields (fields_of table_name names) ≡ fields_of table_name names
  unfolding apply_constraint_metadata
  data_fields-fields_of table_name [] h = refl
  data_fields-fields_of table_name (name ∷ names) h =
      rw (h.0, data_fields-fields_of table_name names h.1) refl

  any_field-fields_of :
      (table_name : String) (names : List String)
      → any_field (fields_of table_name names) ≡ any_name names
  any_field-fields_of table_name [] = refl
  any_field-fields_of table_name (name ∷ names) = refl

  -- For columns of one table that carry the metadata of its constraints, none of them the activator
  -- or the row number: they are taken for free of duplicates exactly when there is a column and each
  -- is a column of the primary key, be they the whole key or not.
  pub nodup_input_is_pk-all_in_key :
      (table_name : String) (table : TableConstraint) (names : List String)
      → to_ascii_lowercase "true" ≡ "true"
      → find_name table_name by_table ≡ some table
      → AllData table_name names
      → nodup_input_is_pk to_ascii_lowercase (fields_of table_name names)
        ≡ (any_name names && all_in_key table names)
  unfolding nodup_input_is_pk
  nodup_input_is_pk-all_in_key table_name table names e found h =
      rw (data_fields-fields_of table_name names h) (
        ap₂ (λ a b. a && b) (any_field-fields_of table_name names)
          (all_pk-fields_of table_name table names e found))
