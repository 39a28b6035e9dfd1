-- ===== src/Join/Decide/Refers.antt =====
-- What the tests of `decide_join_mode` say of the keys that it collects
-- (crates/tt-core/src/irs/nodes/plan/lps/join/modes.rs).
use mathlib.Core.Path.{subst}
use truth_table.Common.{
  ℕ, zero, suc, ◌≡◌, refl, sym, ◌↔◌, ◌⊎◌, List, [], ◌∷◌, map, Option, none, some, Bool, true, false,
  ◌&&◌, ◌||◌, String, get_elem?, &&_split, inl, inr,
}
use truth_table.Datafusion.Host.{Host}
use truth_table.Join.Constraints.{Library, TableConstraint, ColumnConstraintMetadata, name_set}
use truth_table.Join.Constraints.Names.{In, In-name_set, same_names-eq}
use truth_table.Join.Modes.{
  Plans, all_metas_pk, all_refer, all_refer_to, any_meta, refers_to_table, same_names,
  fk_ref_column_set, all_columns_form_fk_to_table, all_columns_form_fk_to_column_set,
}
use truth_table.Join.Decide.{Side, is_fk_to}
use truth_table.Join.Decide.Collected.{some_injective, names_in}

-- the columns that a column refers to are the named ones
abbrev pub RefersTo : Library → ColumnConstraintMetadata → List String → Type 0
RefersTo lib m names = (s : String) → In s (map lib.to_lowercase m.fk_ref_columns) ↔ In s names

pub all_metas_pk-at :
    (metas : List ColumnConstraintMetadata) (i : ℕ) {m : ColumnConstraintMetadata}
    → all_metas_pk metas ≡ true
    → get_elem? metas i ≡ some m
    → m.is_pk ≡ true
all_metas_pk-at [] i e found = cc
all_metas_pk-at (n ∷ metas) zero e found =
    rw (← some_injective found) (&&_split n.is_pk (all_metas_pk metas) e).0
all_metas_pk-at (n ∷ metas) (suc i) e found =
    all_metas_pk-at metas i (&&_split n.is_pk (all_metas_pk metas) e).1 found

module _ (lib : Library) where
  refers-at :
      (metas : List ColumnConstraintMetadata) (others : List String) (i : ℕ)
      {m : ColumnConstraintMetadata}
      → all_refer lib metas others ≡ true
      → get_elem? metas i ≡ some m
      → same_names (fk_ref_column_set lib m) others ≡ true
  refers-at [] others i e found = cc
  refers-at (n ∷ metas) others zero e found =
      rw (← some_injective found)
        (&&_split (same_names (fk_ref_column_set lib n) others) (all_refer lib metas others) e).0
  refers-at (n ∷ metas) others (suc i) e found =
      refers-at metas others i
        (&&_split (same_names (fk_ref_column_set lib n) others) (all_refer lib metas others) e).1
        found

  all_refer_to-all_refer :
      (metas : List ColumnConstraintMetadata) (table : String) (others : List String)
      → all_refer_to lib metas table others ≡ true
      → all_refer lib metas others ≡ true
  unfolding all_refer_to
  all_refer_to-all_refer [] table others e = refl
  all_refer_to-all_refer (m ∷ metas) table others e =
      let here = refers_to_table m.fk_ref_table table in
      let alike = same_names (fk_ref_column_set lib m) others in
      let (first, later) = &&_split (here && alike) (all_refer_to lib metas table others) e in
      let same = (&&_split here alike first).1 in
      rw (same, all_refer_to-all_refer metas table others later) refl

  to_table-all_refer :
      (metas : List ColumnConstraintMetadata) (table : Option String) (others : List String)
      → all_columns_form_fk_to_table lib metas table others ≡ true
      → all_refer lib metas others ≡ true
  unfolding all_columns_form_fk_to_table
  to_table-all_refer metas none others e = cc
  to_table-all_refer metas (some table) others e =
      all_refer_to-all_refer metas table others
        (&&_split (any_meta metas) (all_refer_to lib metas table others) e).1

  to_set-all_refer :
      (metas : List ColumnConstraintMetadata) (others : List String)
      → all_columns_form_fk_to_column_set lib metas others ≡ true
      → all_refer lib metas others ≡ true
  unfolding all_columns_form_fk_to_column_set
  to_set-all_refer metas others e = (&&_split (any_meta metas) (all_refer lib metas others) e).1

  either_true : (a b : Bool) → (a || b) ≡ true → (a ≡ true) ⊎ (b ≡ true)
  either_true true b e = inl refl
  either_true false b e = inr e

module _ {h : Host} (lib : Library) (by_table : List (String × TableConstraint))
    (ps : Plans h) where
  is_fk_to-all_refer :
      (from to : Side h)
      → is_fk_to h lib by_table ps from to ≡ true
      → all_refer lib from.metas (name_set (names_in lib by_table to.cols)) ≡ true
  unfolding is_fk_to
  is_fk_to-all_refer from to e = elim (either_true lib _ _ e) [
    | inl t ↦ to_table-all_refer lib from.metas _ _ t
    | inr s ↦ to_set-all_refer lib from.metas _ s
  ]

  -- each column of a foreign key refers to the columns of the other side
  pub is_fk_to-RefersTo :
      (from to : Side h) (i : ℕ) {m : ColumnConstraintMetadata}
      → is_fk_to h lib by_table ps from to ≡ true
      → get_elem? from.metas i ≡ some m
      → RefersTo lib m (names_in lib by_table to.cols)
  is_fk_to-RefersTo from to i {m} e found s =
      let names = names_in lib by_table to.cols in
      let same =
        same_names-eq (fk_ref_column_set lib m) (name_set names)
          (refers-at lib from.metas (name_set names) i (is_fk_to-all_refer from to e) found) in
      let refs = map lib.to_lowercase m.fk_ref_columns in
      let a = In-name_set s refs in
      let b = In-name_set s names in
      ((λ x. b.0 (subst (In s) same (a.1 x))), (λ x. a.0 (subst (In s) (sym same) (b.1 x))))
