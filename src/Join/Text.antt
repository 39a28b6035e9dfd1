-- ===== src/Join/Text.antt =====
-- The operations on texts that the names of tables go through: `rsplit`, `trim_matches` and
-- `eq_ignore_ascii_case` of Rust's standard library. Lower case of other letters is an argument.
use Prim.Native.String.{String, [], ◌∷◌, compare}
use Prim.Native.Char.{code}
use Prim.Native.Nat.{lt, eq, gt}
use truth_table.Common.{ℕ, ◌+◌, Bool, true, false, ◌&&◌, leb, ◌==◌, if◌then◌else◌}

abbrev pub same_text : String → String → Bool
same_text s t = elim (compare s t) [ lt ↦ false | eq ↦ true | gt ↦ false ]

-- `rsplit('.').next()`: what follows the last dot, the first text being what follows the last so far
abbrev after_dots : String → String → String
after_dots so_far [] = so_far
after_dots so_far (c ∷ s) =
    let start = after_dots s s in
    let same = after_dots so_far s in if code c == b'.' then start else same

abbrev trim_start : ℕ → String → String
trim_start quote [] = []
trim_start quote (c ∷ s) = let rest = trim_start quote s in if code c == quote then rest else c ∷ s

abbrev is_empty : String → Bool
is_empty [] = true
is_empty (c ∷ s) = false

abbrev trim_end : ℕ → String → String
trim_end quote [] = []
trim_end quote (c ∷ s) =
    let rest = trim_end quote s in if is_empty rest && code c == quote then [] else c ∷ rest

abbrev trim_matches : ℕ → String → String
trim_matches quote s = trim_end quote (trim_start quote s)

unfoldable pub table_name_from_qualifier : (String → String) → String → String
table_name_from_qualifier to_lowercase qualifier =
    to_lowercase (trim_matches b'`' (trim_matches b'"' (after_dots qualifier qualifier)))

abbrev lower_ascii : ℕ → ℕ
lower_ascii c = if leb b'A' c && leb c b'Z' then c + 32 else c

unfoldable pub eq_ignore_ascii_case : String → String → Bool
eq_ignore_ascii_case [] [] = true
eq_ignore_ascii_case [] (d ∷ t) = false
eq_ignore_ascii_case (c ∷ s) [] = false
eq_ignore_ascii_case (c ∷ s) (d ∷ t) =
    lower_ascii (code c) == lower_ascii (code d) && eq_ignore_ascii_case s t
