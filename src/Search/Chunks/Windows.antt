-- ===== src/Search/Chunks/Windows.antt =====
-- src/server/search/chunk.ts, `maximumEnd`: the window that a chunk is taken from.
use chatwca.Prelude.{
  Bool, [], ap, arith, false, if_holds, length, ltb, ltb→lt, refl, suc, take, true, zero, ℕ, ◌+◌,
  ◌<◌, ◌∷◌, ◌≡◌, ◌≤◌,
}
use chatwca.Prelude.Slices.{}
use chatwca.Prelude.Text.{Text}
use chatwca.Search.CodePoints.{
  code_point_at, is_pair, points_from, utf8_from, utf8_width, well_formed_from,
}
use chatwca.Search.Surrogates.{
  IsCut, code_point_at-take, is_pair-take, well_formed-after, well_formed-pair, well_formed-starts,
}
use chatwca.Search.Chunks.{max_chunk_utf8_bytes, max_chunk_characters, maximum_units}

utf8_width_small : (point : ℕ) → utf8_width point ≤ 4
unfolding utf8_width
utf8_width_small point = ground arith

-- The window is within the text.
pub maximum_units-length :
    (k b : ℕ) (f : Bool) (text : Text) → maximum_units k b f text ≤ length text
unfolding maximum_units
maximum_units-length k b true [] = omega arith
maximum_units-length k b true (c ∷ cs) = omega (arith, maximum_units-length k b false cs)
maximum_units-length zero b false text = omega arith
maximum_units-length (suc k) b false [] = omega arith
maximum_units-length (suc k) b false (c ∷ cs) =
    ground (arith, maximum_units-length k (b + utf8_width (code_point_at c cs)) (is_pair c cs) cs)

first_fits : (k : ℕ) (c : ℕ) (cs : Text) → 0 < maximum_units (suc k) 0 false (c ∷ cs)
unfolding maximum_units
first_fits k c cs =
    let width = utf8_width (code_point_at c cs) in
    if_holds (λ n. 0 < n) (ltb max_chunk_utf8_bytes (0 + width))
      (λ over. absurd (
        omega (
          arith,
          ltb→lt max_chunk_utf8_bytes (0 + width) over,
          utf8_width_small (code_point_at c cs),
        )))
      (λ fits. omega arith)

-- The first code point of a text fits.
pub maximum_units-grows :
    (text : Text) → 0 < length text → 0 < maximum_units max_chunk_characters 0 false text
maximum_units-grows [] h = absurd (omega (arith, h))
maximum_units-grows (c ∷ cs) h = first_fits 3199 c cs

-- It ends at a cut.
pub maximum_units-IsCut :
    (k b : ℕ) (f : Bool) (text : Text)
    → well_formed_from f text ≡ true
    → IsCut (maximum_units k b f text) text
unfolding maximum_units
maximum_units-IsCut k b true [] h = refl
maximum_units-IsCut k b true (c ∷ cs) h =
    maximum_units-IsCut k b false cs (well_formed-after true c cs h refl)
maximum_units-IsCut zero b false text h = well_formed-starts text h
maximum_units-IsCut (suc k) b false [] h = refl
maximum_units-IsCut (suc k) b false (c ∷ cs) h =
    let b' = b + utf8_width (code_point_at c cs) in
    if_holds (λ n. IsCut n (c ∷ cs)) (ltb max_chunk_utf8_bytes b')
      (λ over. well_formed-starts (c ∷ cs) h)
      (λ fits. maximum_units-IsCut k b' (is_pair c cs) cs (well_formed-pair false c cs h))

-- The window has at most the bytes and the characters that are left.
pub maximum_units-bytes :
    (k b : ℕ) (f : Bool) (text : Text)
    → well_formed_from f text ≡ true
    → b ≤ max_chunk_utf8_bytes
    → b + utf8_from f (take (maximum_units k b f text) text) ≤ max_chunk_utf8_bytes
unfolding maximum_units utf8_from
maximum_units-bytes k b true [] h small = omega (arith, small)
maximum_units-bytes k b true (c ∷ cs) h small =
    maximum_units-bytes k b false cs (well_formed-after true c cs h refl) small
maximum_units-bytes zero b false text h small = omega (arith, small)
maximum_units-bytes (suc k) b false [] h small = omega (arith, small)
maximum_units-bytes (suc k) b false (c ∷ cs) h small =
    let b' = b + utf8_width (code_point_at c cs) in
    let rest = well_formed-pair false c cs h in
    let n = maximum_units k b' (is_pair c cs) cs in
    let cut = maximum_units-IsCut k b' (is_pair c cs) cs rest in
    if_holds (λ m. b + utf8_from false (take m (c ∷ cs)) ≤ max_chunk_utf8_bytes)
      (ltb max_chunk_utf8_bytes b') (λ over. omega (arith, small))
      (λ fits. omega (
        arith,
        maximum_units-bytes k b' (is_pair c cs) cs rest (ground (arith, fits)),
        ap utf8_width (code_point_at-take c n cs cut),
        ap (λ g. utf8_from g (take n cs)) (is_pair-take c n cs cut),
      ))

pub maximum_units-points :
    (k b : ℕ) (f : Bool) (text : Text)
    → well_formed_from f text ≡ true
    → points_from f (take (maximum_units k b f text) text) ≤ k
unfolding maximum_units points_from
maximum_units-points k b true [] h = omega arith
maximum_units-points k b true (c ∷ cs) h =
    maximum_units-points k b false cs (well_formed-after true c cs h refl)
maximum_units-points zero b false text h = omega arith
maximum_units-points (suc k) b false [] h = omega arith
maximum_units-points (suc k) b false (c ∷ cs) h =
    let b' = b + utf8_width (code_point_at c cs) in
    let rest = well_formed-pair false c cs h in
    let n = maximum_units k b' (is_pair c cs) cs in
    let cut = maximum_units-IsCut k b' (is_pair c cs) cs rest in
    if_holds (λ m. points_from false (take m (c ∷ cs)) ≤ suc k) (ltb max_chunk_utf8_bytes b')
      (λ over. omega arith)
      (λ fits. omega (
        arith,
        maximum_units-points k b' (is_pair c cs) cs rest,
        ap (λ g. points_from g (take n cs)) (is_pair-take c n cs cut),
      ))
