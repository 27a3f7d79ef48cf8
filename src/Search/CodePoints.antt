-- ===== src/Search/CodePoints.antt =====
-- UTF-16 text by code points: surrogates, `codePointAt`, the length in UTF-8, and isWellFormedText
-- and normalizeEntryText of src/server/search/extract.ts.
use chatwca.Prelude.{
  Bool, [], false, if◌then◌else◌, leb, ltb, not, suc, true, ℕ, ◌&&◌, ◌*◌, ◌+◌, ◌-◌, ◌==◌, ◌∷◌,
}
use chatwca.Prelude.Text.{Text}

abbrev pub is_high : ℕ → Bool
is_high c = leb 0xd800 c && leb c 0xdbff

abbrev pub is_low : ℕ → Bool
is_low c = leb 0xdc00 c && leb c 0xdfff

-- Whether a text starts with a low surrogate.
abbrev pub starts_low : Text → Bool
starts_low [] = false
starts_low (c ∷ cs) = is_low c

-- Whether `codePointAt` reads a pair, given a unit and the units after it.
abbrev pub is_pair : ℕ → Text → Bool
is_pair c cs = is_high c && starts_low cs

abbrev pub first_or_zero : Text → ℕ
first_or_zero [] = 0
first_or_zero (c ∷ cs) = c

abbrev pub pair_value : ℕ → ℕ → ℕ
pair_value high low = 0x10000 + (high - 0xd800) * 0x400 + (low - 0xdc00)

-- `text.codePointAt(0)` of the unit and the units after it.
unfoldable pub code_point_at : ℕ → Text → ℕ
code_point_at c cs = if is_pair c cs then pair_value c (first_or_zero cs) else c

unfoldable pub utf8_width : ℕ → ℕ
utf8_width point =
    if ltb point 0x80 then 1 else if ltb point 0x800 then 2 else if ltb point 0x10000 then 3 else 4

-- `Buffer.byteLength(text, "utf8")`: the second unit of a pair adds nothing. The flag says that the
-- unit before was the first of a pair.
unfoldable pub utf8_from : Bool → Text → ℕ
unfolding code_point_at utf8_width
utf8_from after [] = 0
utf8_from true (c ∷ cs) = utf8_from false cs
utf8_from false (c ∷ cs) = utf8_width (code_point_at c cs) + utf8_from (is_pair c cs) cs

abbrev pub utf8_length : Text → ℕ
utf8_length = utf8_from false

-- The number of code points.
unfoldable pub points_from : Bool → Text → ℕ
points_from after [] = 0
points_from true (c ∷ cs) = points_from false cs
points_from false (c ∷ cs) = suc (points_from (is_pair c cs) cs)

abbrev pub count_points : Text → ℕ
count_points = points_from false

-- Every high surrogate is followed by a low one, and no other unit is.
unfoldable pub well_formed_from : Bool → Text → Bool
well_formed_from after [] = not after
well_formed_from after (c ∷ cs) =
    (if after then is_low c else not (is_low c)) && well_formed_from (is_high c) cs

unfoldable pub is_well_formed_text : Text → Bool
unfolding well_formed_from
is_well_formed_text = well_formed_from false

-- `text.replace(/\r\n?/gu, "\n")`: a line feed after a carriage return is dropped.
unfoldable pub normalize_from : Bool → Text → Text
normalize_from after [] = []
normalize_from after (c ∷ cs) = elim (c == 0xd) [
  | true ↦ 0xa ∷ normalize_from true cs
  | false ↦ elim (after && c == 0xa) [
    | true ↦ normalize_from false cs
    | false ↦ c ∷ normalize_from false cs
  ]
]

unfoldable pub normalize_entry_text : Text → Text
unfolding normalize_from
normalize_entry_text = normalize_from false
