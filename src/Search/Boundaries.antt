-- ===== src/Search/Boundaries.antt =====
-- src/server/search/chunk.ts: `preferredEnd`, the patterns by which it looks for a boundary.
use chatwca.Prelude.{
  List, Option, [], false, if◌then◌else◌, leb, length, ltb, none, some, suc, true, zero, ℕ, ◌*◌,
  ◌+◌, ◌-◌, ◌==◌, ◌||◌, ◌∷◌,
}
use chatwca.Prelude.Text.{Text}

-- A pattern at the start of a text: the length of its match, at least 1.
abbrev pub Matcher : Type 0
Matcher = Text → Option ℕ

abbrev pub add_one : Option ℕ → Option ℕ
add_one none = none
add_one (some n) = some (suc n)

-- `[ \t]*\n`
unfoldable pub match_blank_line : Matcher
match_blank_line [] = none
match_blank_line (c ∷ cs) = elim (c == 0xa) [
  | true ↦ some 1
  | false ↦ elim (c == 0x20 || c == 0x9) [ true ↦ add_one (match_blank_line cs) | false ↦ none ]
]

-- `\n[ \t]*\n`
unfoldable pub match_paragraph : Matcher
unfolding match_blank_line
match_paragraph [] = none
match_paragraph (c ∷ cs) = elim (c == 0xa) [ true ↦ add_one (match_blank_line cs) | false ↦ none ]

-- `[ \t\n]+`
unfoldable pub match_spaces : Matcher
match_spaces [] = none
match_spaces (c ∷ cs) = elim (c == 0x20 || c == 0x9 || c == 0xa) [
  | false ↦ none
  | true ↦ elim (match_spaces cs) [ none ↦ some 1 | some n ↦ some (suc n) ]
]

-- `[.!?][ \t\n]+`
unfoldable pub match_sentence : Matcher
unfolding match_spaces
match_sentence [] = none
match_sentence (c ∷ cs) = elim (c == b'.' || c == b'!' || c == b'?') [
  | true ↦ add_one (match_spaces cs)
  | false ↦ none
]

-- `\n`
unfoldable pub match_line : Matcher
match_line [] = none
match_line (c ∷ cs) = elim (c == 0xa) [ true ↦ some 1 | false ↦ none ]

abbrev pub later_end : ℕ → ℕ → ℕ → ℕ
later_end size boundary end = if leb size (2 * end) then end else boundary

-- The loop over `slice.matchAll(pattern)`: the end of the last match that ends in the second half
-- of a slice of `size` units, or the boundary found before. Of a match already seen, `skip` units
-- are left, and `index` is where the text stands in the slice.
unfoldable pub last_boundary : Matcher → ℕ → ℕ → ℕ → ℕ → Text → ℕ
last_boundary matcher size boundary skip index [] = boundary
last_boundary matcher size boundary (suc skip) index (c ∷ cs) =
    last_boundary matcher size boundary skip (suc index) cs
last_boundary matcher size boundary zero index (c ∷ cs) = elim (matcher (c ∷ cs)) [
  | none ↦ last_boundary matcher size boundary 0 (suc index) cs
  | some n ↦ last_boundary matcher size (later_end size boundary (index + n)) (n - 1) (suc index) cs
]

-- The first of the patterns with a boundary; at the end of the slice without one.
unfoldable pub first_boundary : List Matcher → Text → ℕ
unfolding last_boundary
first_boundary [] slice = length slice
first_boundary (matcher ∷ matchers) slice =
    let boundary = last_boundary matcher (length slice) 0 0 0 slice in
    let later = first_boundary matchers slice in if ltb 0 boundary then boundary else later

abbrev pub patterns : List Matcher
patterns = match_paragraph ∷ match_sentence ∷ match_line ∷ []
