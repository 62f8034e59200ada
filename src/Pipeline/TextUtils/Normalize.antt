-- ===== src/Pipeline/TextUtils/Normalize.antt =====
-- app/pipeline/text_utils.py: `normalize_text` and `normalize_clause_id`. What Python's Unicode tables
-- decide is a parameter: which code points are whitespace, and the lower case of a text.
use rfp_shred.Prelude.{
  Bool, Text, [], false, if◌then◌else◌, reverse_onto, true, ℕ, ◌&&◌, ◌++◌, ◌==◌, ◌||◌, ◌∷◌,
}

pub record Unicode : Type 0 where
  pub is_space : ℕ → Bool
  pub lower : Text → Text

-- `_HYPHEN_LINEBREAK.sub("", text)`
unfoldable pub join_lines : Text → Text
join_lines [] = []
join_lines (c ∷ []) = c ∷ []
join_lines (c ∷ d ∷ t) =
    let joined = join_lines t in
    let rest = c ∷ join_lines (d ∷ t) in if c == 45 && d == 10 then joined else rest

-- `_LIGATURES`
unfoldable pub ligature : ℕ → Text
ligature c =
    if c == 0xfb01
    then 102 ∷ 105 ∷ []
    else if c == 0xfb02
    then 102 ∷ 108 ∷ []
    else if c == 0xfb00
    then 102 ∷ 102 ∷ []
    else if c == 0xfb03
    then 102 ∷ 102 ∷ 105 ∷ []
    else if c == 0xfb04
    then 102 ∷ 102 ∷ 108 ∷ []
    else c ∷ []

unfoldable pub replace_ligatures : Text → Text
unfolding ligature
replace_ligatures [] = []
replace_ligatures (c ∷ t) = ligature c ++ replace_ligatures t

-- `re.sub(r"[...]+", repl, text)`: each longest run of the class becomes one `repl`. The flag says
-- whether the run has begun before `text`.
unfoldable pub collapse : (ℕ → Bool) → ℕ → Bool → Text → Text
collapse test repl running [] = []
collapse test repl running (c ∷ t) =
    let inside = collapse test repl true t in
    let outside = c ∷ collapse test repl false t in
    if test c then (if running then inside else repl ∷ inside) else outside

unfoldable pub lstrip : (ℕ → Bool) → Text → Text
lstrip test [] = []
lstrip test (c ∷ t) = let rest = lstrip test t in if test c then rest else c ∷ t

unfoldable pub strip : (ℕ → Bool) → Text → Text
unfolding lstrip
strip test t = reverse_onto (lstrip test (reverse_onto (lstrip test t) [])) []

abbrev pub is_dot : ℕ → Bool
is_dot c = c == 46

-- `.strip(".;:, \t")`
abbrev pub is_edge_punctuation : ℕ → Bool
is_edge_punctuation c = c == 46 || c == 59 || c == 58 || c == 44 || c == 32 || c == 9

module _ (u : Unicode) where
  -- `[\s\-]`
  abbrev pub is_separator : ℕ → Bool
  is_separator c = u.is_space c || c == 45

  unfoldable pub normalize_text : Text → Text
  unfolding join_lines replace_ligatures collapse strip
  normalize_text t =
      u.lower (strip u.is_space (collapse u.is_space 32 false (replace_ligatures (join_lines t))))

  unfoldable pub normalize_clause_id : Text → Text
  unfolding collapse strip
  normalize_clause_id t =
      let trimmed = strip is_edge_punctuation (u.lower (strip u.is_space t)) in
      strip is_dot (collapse is_dot 46 false (collapse is_separator 46 false trimmed))
