-- ===== src/Search/Chunks/Ordinals.antt =====
-- src/server/search/chunk.ts: the numbers of the chunks of a conversation.
use chatwca.Prelude.{
  List, Result, [], arith, elim_holds, err, false, if_holds, leb, length, length-append, ltb, not,
  ok, refl, subst, suc, zero, ℕ, ◌++◌, ◌+◌, ◌<◌, ◌==◌, ◌>>=◌, ◌∷◌, ◌≡◌, ◌≤◌,
}
use chatwca.Prelude.Text.{Text, split}
use chatwca.Search.CodePoints.{normalize_entry_text, is_well_formed_text}
use chatwca.Search.Chunks.{
  ChunkError, ExtractedMessage, SearchChunk, after_chunk, chunk_message, chunk_of, is_blank,
  max_conversation_chunks, maximum_end, overlap_start, preferred_end, split_from, chunk_messages,
  chunks_from,
}

-- The chunks' ordinals count up from a number.
abbrev pub Numbered : ℕ → List SearchChunk → Type 0
Numbered ordinal [] = Unit
Numbered ordinal (chunk ∷ chunks) = (chunk.ordinal ≡ ordinal) × Numbered (suc ordinal) chunks

Numbered-append :
    (ordinal : ℕ) (own later : List SearchChunk)
    → Numbered ordinal own
    → Numbered (ordinal + length own) later
    → Numbered ordinal (own ++ later)
Numbered-append ordinal [] later h k =
    let same : ordinal + 0 ≡ ordinal = omega arith in subst (λ n. Numbered n later) same k
Numbered-append ordinal (chunk ∷ own) later (h, hs) k =
    let same : ordinal + suc (length own) ≡ suc ordinal + length own = omega arith in
    (h, Numbered-append (suc ordinal) own later hs (subst (λ n. Numbered n later) same k))

-- Chunks that are numbered from a number on, within the limit.
abbrev pub IsNumbering : ℕ → Result ChunkError (List SearchChunk) → Type 0
IsNumbering ordinal (err thrown) = Unit
IsNumbering ordinal (ok chunks) =
    Numbered ordinal chunks
    × (ordinal ≤ max_conversation_chunks → ordinal + length chunks ≤ max_conversation_chunks)

after_chunk-IsNumbering :
    (ordinal : ℕ) (chunk : SearchChunk) (rest : Result ChunkError (List SearchChunk))
    → chunk.ordinal ≡ ordinal
    → ordinal < max_conversation_chunks
    → IsNumbering (suc ordinal) rest
    → IsNumbering ordinal (after_chunk chunk rest)
after_chunk-IsNumbering ordinal chunk (err thrown) own room r = tt
after_chunk-IsNumbering ordinal chunk (ok chunks) own room (numbered, within) =
    ((own, numbered), λ _. counted max_conversation_chunks ordinal (length chunks) (within room))
  where
    counted : (limit o n : ℕ) → suc o + n ≤ limit → o + suc n ≤ limit
    counted limit o n h = omega (arith, h)

append-IsNumbering :
    (ordinal : ℕ) (own : List SearchChunk) (rest : Result ChunkError (List SearchChunk))
    → IsNumbering ordinal (ok own)
    → IsNumbering (ordinal + length own) rest
    → IsNumbering ordinal (rest >>= λ later. ok (own ++ later))
append-IsNumbering ordinal own (err thrown) h r = tt
append-IsNumbering ordinal own (ok later) (numbered, within) (after, room) = (
  Numbered-append ordinal own later numbered after,
  λ h.
      joined ordinal (length own) (length later) (length (own ++ later)) max_conversation_chunks
        (length-append own later) (room (within h)),
)
  where
    joined : (o n m k limit : ℕ) → k ≡ n + m → o + n + m ≤ limit → o + k ≤ limit
    joined o n m k limit e h = omega (arith, e, h)

bind-IsNumbering :
    (ordinal : ℕ) (result : Result ChunkError (List SearchChunk))
    (next : List SearchChunk → Result ChunkError (List SearchChunk))
    → IsNumbering ordinal result
    → ((own : List SearchChunk) → IsNumbering (ordinal + length own) (next own))
    → IsNumbering ordinal (result >>= λ own. next own >>= λ later. ok (own ++ later))
bind-IsNumbering ordinal (err thrown) next h r = tt
bind-IsNumbering ordinal (ok own) next h r = append-IsNumbering ordinal own (next own) h (r own)

not_full : (limit n : ℕ) → leb limit n ≡ false → n < limit
not_full limit n h = ground (arith, h)

module _ (search_hash : Text → Text) where
  split_from-IsNumbering :
      (fuel : ℕ) (message : ExtractedMessage) (text : Text) (ordinal split start byte_start : ℕ)
      → IsNumbering ordinal
          (split_from search_hash fuel message text ordinal split start byte_start)
  unfolding split_from chunk_of
  split_from-IsNumbering zero message text ordinal split start byte_start = tt
  split_from-IsNumbering (suc fuel) message text ordinal split start byte_start =
      let P = IsNumbering ordinal in
      let end = preferred_end text start (maximum_end text start) in
      elim_holds P (ltb start (length text))
        (λ _.
          elim_holds P (leb max_conversation_chunks ordinal) (λ _. tt)
            (λ room.
              elim_holds P (end == length text)
                (λ _. (
                  (refl, tt),
                  λ _.
                      last ordinal max_conversation_chunks
                        (not_full max_conversation_chunks ordinal room),
                ))
                (λ _.
                  after_chunk-IsNumbering ordinal _ _ refl
                    (not_full max_conversation_chunks ordinal room)
                    (split_from-IsNumbering fuel message text (suc ordinal) (suc split)
                      (overlap_start text start end) _))))
        (λ _. (tt, λ h. nothing ordinal max_conversation_chunks h))
    where
      last : (o limit : ℕ) → o < limit → o + 1 ≤ limit
      last o limit h = omega (arith, h)

      nothing : (o limit : ℕ) → o ≤ limit → o + 0 ≤ limit
      nothing o limit h = omega (arith, h)

  chunk_message-IsNumbering :
      (ordinal : ℕ) (message : ExtractedMessage)
      → IsNumbering ordinal (chunk_message search_hash ordinal message)
  unfolding chunk_message
  chunk_message-IsNumbering ordinal message =
      let P = IsNumbering ordinal in
      let text = normalize_entry_text message.content in
      if_holds P (not (is_well_formed_text message.content)) (λ _. tt)
        (λ _.
          if_holds P (is_blank text) (λ _. (tt, λ h. nothing ordinal max_conversation_chunks h))
            (λ _. split_from-IsNumbering (suc (length text)) message text ordinal 0 0 0))
    where
      nothing : (o limit : ℕ) → o ≤ limit → o + 0 ≤ limit
      nothing o limit h = omega (arith, h)

  chunks_from-IsNumbering :
      (ordinal : ℕ) (messages : List ExtractedMessage)
      → IsNumbering ordinal (chunks_from search_hash ordinal messages)
  unfolding chunks_from
  chunks_from-IsNumbering ordinal [] = (tt, λ h. nothing ordinal max_conversation_chunks h)
    where
      nothing : (o limit : ℕ) → o ≤ limit → o + 0 ≤ limit
      nothing o limit h = omega (arith, h)
  chunks_from-IsNumbering ordinal (message ∷ messages) =
      bind-IsNumbering ordinal (chunk_message search_hash ordinal message)
        (λ own. chunks_from search_hash (ordinal + length own) messages)
        (chunk_message-IsNumbering ordinal message)
        (λ own. chunks_from-IsNumbering (ordinal + length own) messages)

  -- The ordinals of a conversation's chunks are 0, 1, 2 and so on, and there are at most 20000.
  pub chunk_messages-Numbered :
      (messages : List ExtractedMessage) (chunks : List SearchChunk)
      → chunk_messages search_hash messages ≡ ok chunks
      → Numbered 0 chunks × (length chunks ≤ max_conversation_chunks)
  chunk_messages-Numbered messages chunks e =
      let (numbered, within) = subst (IsNumbering 0) e (chunks_from-IsNumbering 0 messages) in
      (numbered, none_before (length chunks) max_conversation_chunks (within (omega arith)))
    where
      none_before : (n limit : ℕ) → 0 + n ≤ limit → n ≤ limit
      none_before n limit h = omega (arith, h)
