-- ===== src/Search/Chunks/Cover.antt =====
-- src/server/search/chunk.ts, the inner loop of `chunkMessages`: the chunks of a message cover its
-- text.
use chatwca.Prelude.{
  List, Result, [], ap, arith, drop, elim_holds, err, false, leb, leb→le, length, ltb, ok, refl,
  subst, suc, sym, take, true, zero, ℕ, ◌+◌, ◌-◌, ◌<◌, ◌==◌, ◌∙◌, ◌∷◌, ◌≡◌, ◌≤◌,
}
use chatwca.Prelude.Slices.{drop-take, take-take}
use chatwca.Prelude.Text.{Text, split}
use chatwca.Search.CodePoints.{count_points, is_well_formed_text, utf8_length, well_formed_from}
use chatwca.Search.Surrogates.{IsCut, IsCut-within, utf8_split, well_formed-drop, well_formed-take}
use chatwca.Search.Chunks.{
  SearchChunk, max_chunk_characters, max_chunk_utf8_bytes, slice, ChunkError, ExtractedMessage,
  after_chunk, chunk_of, max_conversation_chunks, out_of_fuel, session_invalid, session_limit,
  maximum_end, overlap_start, preferred_end, split_from,
}
use chatwca.Search.Chunks.Ends.{IsChunkEnd, preferred_end-IsChunkEnd}
use chatwca.Search.Chunks.Bounds.{slice-bytes, slice-points}
use chatwca.Search.Chunks.Overlaps.{IsNextStart, overlap_start-IsNextStart}

-- A chunk is the text between two places, whole code points, with the places in UTF-8 and in order.
pub record IsSpan (text : Text) (start end : ℕ) (chunk : SearchChunk) : Type 0 where
  pub after : start < end
  pub quoted : chunk.content ≡ slice start end text
  pub starts : chunk.source_byte_start ≡ utf8_length (take start text)
  pub ends : chunk.source_byte_end ≡ utf8_length (take end text)
  pub whole : is_well_formed_text chunk.content ≡ true
  pub bytes : utf8_length chunk.content ≤ max_chunk_utf8_bytes
  pub characters : count_points chunk.content ≤ max_chunk_characters

-- Chunks that cover a text from a place to its end, each starting in the one before.
pub data Covers (text : Text) : ℕ → List SearchChunk → Type 0 where
  last_chunk :
      {start : ℕ} (chunk : SearchChunk)
      → IsSpan text start (length text) chunk
      → Covers text start (chunk ∷ [])
  overlapping :
      {start : ℕ} (end next : ℕ) (chunk : SearchChunk) (chunks : List SearchChunk)
      → IsSpan text start end chunk
      → start < next
      → next ≤ end
      → Covers text next chunks
      → Covers text start (chunk ∷ chunks)

-- The bytes before a cut and from there to a later one.
utf8-prefix :
    (text : Text) (start end : ℕ)
    → well_formed_from false text ≡ true
    → IsCut start text
    → IsCut end text
    → start ≤ end
    → utf8_length (take end text)
      ≡ utf8_length (take start text) + utf8_length (slice start end text)
utf8-prefix text start end h cut end_cut le =
    utf8_split false start (take end text) (well_formed-take false end text h end_cut)
      (IsCut-within start end text cut)
    ∙ ap (λ t. utf8_length t + utf8_length (drop start (take end text)))
        (take-take start end text le)
    ∙ ap (λ t. utf8_length (take start text) + utf8_length t) (drop-take start end text)

slice-IsWellFormed :
    (text : Text) (start end : ℕ)
    → well_formed_from false text ≡ true
    → IsCut start text
    → IsCut end text
    → start ≤ end
    → well_formed_from false (slice start end text) ≡ true
slice-IsWellFormed text start end h cut end_cut le =
    let within = IsCut-within start end text cut in
    ap (well_formed_from false) (sym (drop-take start end text))
    ∙ well_formed-drop false start (take end text) (well_formed-take false end text h end_cut)
        within

chunk_of-IsSpan :
    (search_hash : Text → Text) (message : ExtractedMessage) (ordinal split byte_start : ℕ)
    (text : Text) (start end : ℕ)
    → well_formed_from false text ≡ true
    → IsCut start text
    → IsChunkEnd text start end
    → byte_start ≡ utf8_length (take start text)
    → IsSpan text start end
        (chunk_of search_hash message ordinal split byte_start (slice start end text))
unfolding chunk_of is_well_formed_text
chunk_of-IsSpan search_hash message ordinal split byte_start text start end h cut e starts =
    record {
      after = e.after;
      quoted = refl;
      starts = starts;
      ends =
          ap (λ n. n + utf8_length (slice start end text)) starts
          ∙ sym (utf8-prefix text start end h cut e.cut (omega (arith, e.after)));
      whole = slice-IsWellFormed text start end h cut e.cut (omega (arith, e.after));
      bytes = slice-bytes text start end h cut e;
      characters = slice-points text start end h cut e;
    }

-- What the loop gives from a place on, with `ordinal` chunks before: the limit's error only where the
-- text has more units left than chunks are.
abbrev pub Splits : Text → ℕ → ℕ → Result ChunkError (List SearchChunk) → Type 0
Splits text ordinal start (err session_invalid) = ⊥
Splits text ordinal start (err out_of_fuel) = ⊥
Splits text ordinal start (err session_limit) =
    max_conversation_chunks < ordinal + (length text - start)
Splits text ordinal start (ok chunks) = Covers text start chunks

after_chunk-Splits :
    (text : Text) (ordinal start end next : ℕ) (chunk : SearchChunk)
    (rest : Result ChunkError (List SearchChunk))
    → IsSpan text start end chunk
    → IsNextStart text start end next
    → end ≤ length text
    → Splits text (suc ordinal) next rest
    → Splits text ordinal start (after_chunk chunk rest)
after_chunk-Splits text ordinal start end next chunk (err session_limit) span following within
      many =
    more max_conversation_chunks ordinal (length text) start next following.after
      (omega (arith, following.inside, within)) many
  where
    more : (limit o n s t : ℕ) → s < t → t ≤ n → limit < suc o + (n - t) → limit < o + (n - s)
    more limit o n s t lt le many = omega (arith, lt, le, many)
after_chunk-Splits text ordinal start end next chunk (err session_invalid) span following within
      many =
    elim many [ ]
after_chunk-Splits text ordinal start end next chunk (err out_of_fuel) span following within many =
    elim many [ ]
after_chunk-Splits text ordinal start end next chunk (ok chunks) span following within covers =
    overlapping end next chunk chunks span following.after following.inside covers

module _ (search_hash : Text → Text) where
  -- Fuel above the units that are left is enough.
  pub split_from-Splits :
      (fuel : ℕ) (message : ExtractedMessage) (text : Text) (ordinal split start byte_start : ℕ)
      → well_formed_from false text ≡ true
      → IsCut start text
      → start < length text
      → byte_start ≡ utf8_length (take start text)
      → length text - start < fuel
      → Splits text ordinal start
          (split_from search_hash fuel message text ordinal split start byte_start)
  unfolding split_from
  split_from-Splits zero message text ordinal split start byte_start h cut before starts enough =
      absurd (omega (arith, enough))
  split_from-Splits (suc fuel) message text ordinal split start byte_start h cut before starts
        enough =
      let end = preferred_end text start (maximum_end text start) in
      let e = preferred_end-IsChunkEnd text start h cut before in
      let next = overlap_start text start end in
      let following = overlap_start-IsNextStart text start end h e.after e.cut in
      let span =
        chunk_of-IsSpan search_hash message ordinal split byte_start text start end h cut e
          starts in
      let chunk = chunk_of search_hash message ordinal split byte_start (slice start end text) in
      let P = Splits text ordinal start in
      elim_holds P (ltb start (length text))
        (λ _.
          elim_holds P (leb max_conversation_chunks ordinal)
            (λ full.
              over_limit max_conversation_chunks ordinal (length text) start
                (leb→le max_conversation_chunks ordinal full) before)
            (λ room.
              elim_holds P (end == length text)
                (λ whole. last_chunk chunk (
                  subst (λ k. IsSpan text start k chunk) (same_place end (length text) whole) span))
                (λ part.
                  after_chunk-Splits text ordinal start end next chunk _ span following e.inside (
                    split_from-Splits fuel message text (suc ordinal) (suc split) next
                      (byte_start + utf8_length (slice start next text)) h following.cut
                      (not_last next end (length text) following.inside e.inside part)
                      (ap (λ n. n + utf8_length (slice start next text)) starts
                        ∙ sym (
                            utf8-prefix text start next h cut following.cut
                              (weaken start next following.after)))
                      (less_fuel start next (length text) fuel following.after
                        (not_last next end (length text) following.inside e.inside part) enough)))))
        (λ late. absurd (not_late start (length text) before late))
    where
      over_limit : (limit o n s : ℕ) → limit ≤ o → s < n → limit < o + (n - s)
      over_limit limit o n s le lt = omega (arith, le, lt)

      same_place : (a b : ℕ) → (a == b) ≡ true → a ≡ b
      same_place a b h = ground (arith, h)

      not_late : (a b : ℕ) → a < b → ltb a b ≡ false → ⊥
      not_late a b lt h = ground (arith, lt, h)

      not_last : (next end n : ℕ) → next ≤ end → end ≤ n → (end == n) ≡ false → next < n
      not_last next end n le inside h = ground (arith, le, inside, h)

      weaken : (s t : ℕ) → s < t → s ≤ t
      weaken s t lt = omega (arith, lt)

      less_fuel : (s t n fuel : ℕ) → s < t → t < n → n - s < suc fuel → n - t < fuel
      less_fuel s t n fuel lt last enough = omega (arith, lt, last, enough)

-- Every chunk takes a unit at least.
pub Covers-length :
    (text : Text) (start : ℕ) (chunks : List SearchChunk)
    → Covers text start chunks
    → (0 < length chunks) × (start + length chunks ≤ length text)
Covers-length text start chunks (last_chunk chunk span) = (omega arith, omega (arith, span.after))
Covers-length text start chunks (overlapping end next chunk rest span lt le covers) =
    let (some_rest, fits) = Covers-length text next rest covers in
    (omega arith, omega (arith, lt, fits))
