-- ===== src/Join/Decide/Collected.antt =====
-- What `decide_join_mode` collects of the pairs of keys
-- (crates/tt-core/src/irs/nodes/plan/lps/join/modes.rs).
use mathlib.Core.Path.{subst}
use truth_table.Common.{
  ℕ, zero, suc, ◌≡◌, refl, sym, ap, ◌∙◌, List, [], ◌∷◌, ◌++◌, map, Option, none, some, String,
  get_elem?,
}
use truth_table.Datafusion.Host.{Host}
use truth_table.Datafusion.Arrow.{Field}
use truth_table.Datafusion.Plans.{Column, Expr, ExprPairs}
use truth_table.Join.Constraints.{Library, TableConstraint, ColumnConstraintMetadata}
use truth_table.Join.Modes.{
  Plans, expr_to_column, resolve_constraint_metadata, table_name_from_column,
}
use truth_table.Join.Decide.{Side, key_of, add_key, collect_keys}

pub some_injective : {A : Type 0} {a b : A} → some a ≡ some b → a ≡ b
some_injective e = cc

abbrev pub pairs_of : {h : Host} → ExprPairs h → List (Expr h × Expr h)
pairs_of ExprPairs.no_pairs = []
pairs_of (ExprPairs.pair l r pairs) = (l, r) ∷ pairs_of pairs

module _ {h : Host} (lib : Library) (by_table : List (String × TableConstraint)) where
  -- a key is a column, perhaps renamed or cast, of which metadata is found
  abbrev pub HasMeta :
      List (Option h.TableReference × Field h)
      → Expr h
      → Column h
      → ColumnConstraintMetadata
      → Type 0
  HasMeta fields e c m =
      (expr_to_column e ≡ some c)
      × (resolve_constraint_metadata h lib by_table fields c (table_name_from_column h lib c)
          ≡ some m)

  -- the name of a key in lower case
  abbrev pub name_of : Expr h → List String
  name_of e = elim (expr_to_column e) [ none ↦ [] | some c ↦ lib.to_lowercase c.name ∷ [] ]

  abbrev pub left_names : List (Expr h × Expr h) → List String
  left_names [] = []
  left_names ((l, r) ∷ pairs) = name_of l ++ left_names pairs

  abbrev pub right_names : List (Expr h × Expr h) → List String
  right_names [] = []
  right_names ((l, r) ∷ pairs) = name_of r ++ right_names pairs

  abbrev pub names_in : List (Column h) → List String
  names_in cols = map (λ c. lib.to_lowercase c.name) cols

  module _ (ps : Plans h) (lefts rights : List (Option h.TableReference × Field h)) where
    key_of-HasMeta :
        (fields : List (Option h.TableReference × Field h)) (e : Expr h) {c : Column h}
        {m : ColumnConstraintMetadata}
        → key_of h lib by_table ps fields e ≡ some (c, m)
        → HasMeta fields e c m
    unfolding expr_to_column key_of
    key_of-HasMeta fields e {c} {m} found = go (expr_to_column e) found
      where
        find : Column h → Option ColumnConstraintMetadata
        find d =
            resolve_constraint_metadata h lib by_table fields d (table_name_from_column h lib d)

        pick :
            (d : Column h) (o : Option ColumnConstraintMetadata)
            → find d ≡ o
            → ◌≡◌ {A = Option (Column h × ColumnConstraintMetadata)}
                (elim o [ none ↦ none | some meta ↦ some (d, meta) ])
                (some (c, m))
            → (◌≡◌ {A = Option (Column h)} (some d) (some c)) × (find c ≡ some m)
        pick d none f e' = cc
        pick d (some meta) f e' =
            let both : ◌≡◌ {A = Column h × ColumnConstraintMetadata} (d, meta) (c, m) = cc in
            (
              ap (λ x. some x.0) both,
              ap find (sym (ap (λ x. x.0) both)) ∙ f ∙ ap (λ x. some x.1) both,
            )

        go :
            (o : Option (Column h))
            → ◌≡◌ {A = Option (Column h × ColumnConstraintMetadata)}
                (elim o [
                  | none ↦ none
                  | some d ↦ elim (find d) [ none ↦ none | some meta ↦ some (d, meta) ]
                ])
                (some (c, m))
            → (o ≡ some c) × (find c ≡ some m)
        go none e' = cc
        go (some d) e' = pick d (find d) refl e'

    -- every pair is collected, at its place
    abbrev pub Collects : List (Expr h × Expr h) → Side h → Side h → Type 0
    Collects pairs left right =
        (i : ℕ) (l r : Expr h)
        → get_elem? pairs i ≡ some (l, r)
        → (lc rc : Column h) × (lm rm : ColumnConstraintMetadata) × HasMeta lefts l lc lm
          × HasMeta rights r rc rm
          × (get_elem? left.metas i ≡ some lm)
          × (get_elem? right.metas i ≡ some rm)

    abbrev pub NamesAre : List (Expr h × Expr h) → Side h → Side h → Type 0
    NamesAre pairs left right =
        (names_in left.cols ≡ left_names pairs) × (names_in right.cols ≡ right_names pairs)

    collected :
        (l r : Expr h) (pairs : List (Expr h × Expr h)) (left right : Side h) {lc rc : Column h}
        {lm rm : ColumnConstraintMetadata} (i : ℕ) (l' r' : Expr h)
        → HasMeta lefts l lc lm
        → HasMeta rights r rc rm
        → Collects pairs left right
        → get_elem? ((l, r) ∷ pairs) i ≡ some (l', r')
        → (lc' rc' : Column h) × (lm' rm' : ColumnConstraintMetadata) × HasMeta lefts l' lc' lm'
          × HasMeta rights r' rc' rm'
          × (get_elem? (lm ∷ left.metas) i ≡ some lm')
          × (get_elem? (rm ∷ right.metas) i ≡ some rm')
    collected l r pairs left right {lc} {rc} {lm} {rm} zero l' r' lk rk kept found =
        let same = some_injective found in
        (
          lc,
          rc,
          lm,
          rm,
          subst (λ (x : Expr h × Expr h). HasMeta lefts x.0 lc lm) same lk,
          subst (λ (x : Expr h × Expr h). HasMeta rights x.1 rc rm) same rk,
          refl,
          refl,
        )
    collected l r pairs left right (suc i) l' r' lk rk kept found = kept i l' r' found

    named :
        (e : Expr h) (c : Column h) (cols : List (Column h)) {names : List String}
        → expr_to_column e ≡ some c
        → names_in cols ≡ names
        → names_in (c ∷ cols) ≡ name_of e ++ names
    named e c cols {names} is rest =
        ap (λ ns. lib.to_lowercase c.name ∷ ns) rest
        ∙ ap
            (λ (o : Option (Column h)).
              (elim o [ none ↦ [] | some d ↦ lib.to_lowercase d.name ∷ [] ]) ++ names)
            (sym is)

    add_collected :
        (l r : Expr h) (pairs : List (Expr h × Expr h))
        (ol or : Option (Column h × ColumnConstraintMetadata)) (rest : Option (Side h × Side h))
        {left right : Side h}
        → key_of h lib by_table ps lefts l ≡ ol
        → key_of h lib by_table ps rights r ≡ or
        → ((left' right' : Side h)
            → rest ≡ some (left', right')
            → Collects pairs left' right' × NamesAre pairs left' right')
        → add_key h lib by_table ps ol or rest ≡ some (left, right)
        → Collects ((l, r) ∷ pairs) left right × NamesAre ((l, r) ∷ pairs) left right
    add_collected l r pairs none or rest el er ih e = cc
    add_collected l r pairs (some a) none rest el er ih e = cc
    add_collected l r pairs (some a) (some b) none el er ih e = cc
    add_collected l r pairs (some (lc, lm)) (some (rc, rm)) (some (left', right')) {left} {right} el
          er ih e =
        let (kept, names) = ih left' right' refl in
        let lk = key_of-HasMeta lefts l el in
        let rk = key_of-HasMeta rights r er in
        subst
          (λ (s : Side h × Side h).
            Collects ((l, r) ∷ pairs) s.0 s.1 × NamesAre ((l, r) ∷ pairs) s.0 s.1)
          (some_injective e)
          (
            (λ i l' r' found. collected l r pairs left' right' i l' r' lk rk kept found),
            (named l lc left'.cols lk.0 names.0, named r rc right'.cols rk.0 names.1),
          )

    pub collect_keys-Collects :
        (on : ExprPairs h) {left right : Side h}
        → collect_keys h lib by_table ps lefts rights on ≡ some (left, right)
        → Collects (pairs_of on) left right × NamesAre (pairs_of on) left right
    unfolding collect_keys
    collect_keys-Collects ExprPairs.no_pairs {left} {right} e =
        subst (λ (s : Side h × Side h). Collects [] s.0 s.1 × NamesAre [] s.0 s.1)
          (some_injective e) ((λ i l r found. cc), (refl, refl))
    collect_keys-Collects (ExprPairs.pair l r pairs) e =
        add_collected l r (pairs_of pairs) (key_of h lib by_table ps lefts l)
          (key_of h lib by_table ps rights r) (collect_keys h lib by_table ps lefts rights pairs)
          refl refl (λ left' right' e'. collect_keys-Collects pairs e') e
