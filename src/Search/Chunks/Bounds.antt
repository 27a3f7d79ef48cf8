-- ===== src/Search/Chunks/Bounds.antt =====
-- src/server/search/chunk.ts: a chunk that ends in the window of its start is bounded.
use chatwca.Prelude.{
  ap, arith, drop, false, subst, sym, take, true, ℕ, ◌+◌, ◌-◌, ◌<◌, ◌∙◌, ◌≡◌, ◌≤◌,
}
use chatwca.Prelude.Slices.{drop-drop, take-take}
use chatwca.Prelude.Text.{Text}
use chatwca.Search.CodePoints.{count_points, starts_low, utf8_length, well_formed_from}
use chatwca.Search.Surrogates.{
  IsCut, IsCut-within, points_split, utf8_split, well_formed-drop, well_formed-take,
}
use chatwca.Search.Chunks.{max_chunk_characters, max_chunk_utf8_bytes, maximum_units, slice}
use chatwca.Search.Chunks.Windows.{maximum_units-IsCut, maximum_units-bytes, maximum_units-points}
use chatwca.Search.Chunks.Ends.{IsChunkEnd, window_end}

below : (a b c limit : ℕ) → a ≡ b + c → a ≤ limit → b ≤ limit
below a b c limit e h = omega (arith, e, h)

within_zero : (n limit : ℕ) → 0 + n ≤ limit → n ≤ limit
within_zero n limit h = omega (arith, h)

module _ (text : Text) (start end : ℕ) (h : well_formed_from false text ≡ true)
    (cut : IsCut start text) (e : IsChunkEnd text start end) where
  abbrev window : ℕ
  window = maximum_units max_chunk_characters 0 false (drop start text)

  rest-IsWellFormed : well_formed_from false (drop start text) ≡ true
  rest-IsWellFormed = well_formed-drop false start text h cut

  window-IsWellFormed : well_formed_from false (take window (drop start text)) ≡ true
  window-IsWellFormed =
      well_formed-take false window (drop start text) rest-IsWellFormed
        (maximum_units-IsCut max_chunk_characters 0 false (drop start text) rest-IsWellFormed)

  slice_in_window : slice start end text ≡ take (end - start) (take window (drop start text))
  slice_in_window = sym (
      take-take (end - start) window (drop start text)
        (shorter start end window (window_end text start end e)))
    where
      shorter : (s n w : ℕ) → n ≤ s + w → n - s ≤ w
      shorter s n w le = omega (arith, le)

  slice-IsCut : IsCut (end - start) (take window (drop start text))
  slice-IsCut = IsCut-within (end - start) window (drop start text) (
      ap starts_low (drop-drop start (end - start) text)
      ∙ ap (λ k. starts_low (drop k text)) (together start end e.after)
      ∙ e.cut)
    where
      together : (s n : ℕ) → s < n → s + (n - s) ≡ n
      together s n lt = omega (arith, lt)

  pub slice-bytes : utf8_length (slice start end text) ≤ max_chunk_utf8_bytes
  slice-bytes =
      subst (λ t. utf8_length t ≤ max_chunk_utf8_bytes) (sym slice_in_window)
        (below _ _ _ max_chunk_utf8_bytes
          (utf8_split false (end - start) (take window (drop start text)) window-IsWellFormed
            slice-IsCut)
          (within_zero _ max_chunk_utf8_bytes (
            maximum_units-bytes max_chunk_characters 0 false (drop start text) rest-IsWellFormed
              (omega arith))))

  pub slice-points : count_points (slice start end text) ≤ max_chunk_characters
  slice-points =
      subst (λ t. count_points t ≤ max_chunk_characters) (sym slice_in_window)
        (below _ _ _ max_chunk_characters
          (points_split false (end - start) (take window (drop start text)) window-IsWellFormed
            slice-IsCut)
          (maximum_units-points max_chunk_characters 0 false (drop start text) rest-IsWellFormed))
