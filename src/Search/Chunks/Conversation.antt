-- ===== src/Search/Chunks/Conversation.antt =====
-- src/server/search/chunk.ts, `chunkMessages`: what a conversation's chunks are.
use chatwca.Prelude.{
  Bool, List, Result, [], all, arith, elim_holds, err, false, if_holds, inl, inr, length, not, ok,
  refl, subst, suc, sym, true, ℕ, ◌&&◌, ◌++◌, ◌+◌, ◌<◌, ◌==◌, ◌>>=◌, ◌∙◌, ◌∷◌, ◌≡◌, ◌≤◌, ◌⊎◌,
}
use chatwca.Prelude.Text.{Text, is_space}
use chatwca.Prelude.Text.Blank.{length-trim}
use chatwca.Search.CodePoints.{
  is_well_formed_text, normalize_entry_text, normalize_from, well_formed_from, is_high, utf8_from,
}
use chatwca.Search.Surrogates.{well_formed-rest, well_formed-starts}
use chatwca.Search.Chunks.{
  ChunkError, ExtractedMessage, SearchChunk, is_blank, max_conversation_chunks, out_of_fuel,
  session_invalid, session_limit, chunk_message, chunks_from, split_from, chunk_messages,
}
use chatwca.Search.Chunks.Cover.{Covers, Covers-length, Splits, split_from-Splits}

-- Line endings are no surrogates: `t` takes the place of what is after one.
carriage_step :
    (f : Bool) (cs t : Text)
    → well_formed_from f (0xd ∷ cs) ≡ true
    → (well_formed_from false cs ≡ true → well_formed_from false t ≡ true)
    → well_formed_from f (0xa ∷ t) ≡ true
unfolding well_formed_from
carriage_step true cs t h next = absurd (ground (arith, h))
carriage_step false cs t h next = next h

feed_step :
    (f : Bool) (cs t : Text)
    → well_formed_from f (0xa ∷ cs) ≡ true
    → (well_formed_from false cs ≡ true → well_formed_from false t ≡ true)
    → well_formed_from f t ≡ true
unfolding well_formed_from
feed_step true cs t h next = absurd (ground (arith, h))
feed_step false cs t h next = next h

unit_step :
    (f : Bool) (c : ℕ) (cs t : Text)
    → well_formed_from f (c ∷ cs) ≡ true
    → (well_formed_from (is_high c) cs ≡ true → well_formed_from (is_high c) t ≡ true)
    → well_formed_from f (c ∷ t) ≡ true
unfolding well_formed_from
unit_step f c cs t h next = ground (arith, h, next (well_formed-rest f c cs h))

carriage : (c : ℕ) → (c == 0xd) ≡ true → c ≡ 0xd
carriage c h = ground (arith, h)

feed : (after : Bool) (c : ℕ) → (after && c == 0xa) ≡ true → c ≡ 0xa
feed after c h = ground (arith, h)

normalize_from-IsWellFormed :
    (after f : Bool) (text : Text)
    → well_formed_from f text ≡ true
    → well_formed_from f (normalize_from after text) ≡ true
unfolding normalize_from
normalize_from-IsWellFormed after f [] h = h
normalize_from-IsWellFormed after f (c ∷ cs) h =
    let P = λ (t : Text). well_formed_from f t ≡ true in
    elim_holds P (c == 0xd)
      (λ e.
        carriage_step f cs (normalize_from true cs)
          (subst (λ d. well_formed_from f (d ∷ cs) ≡ true) (carriage c e) h)
          (normalize_from-IsWellFormed true false cs))
      (λ _.
        elim_holds P (after && c == 0xa)
          (λ e.
            feed_step f cs (normalize_from false cs)
              (subst (λ d. well_formed_from f (d ∷ cs) ≡ true) (feed after c e) h)
              (normalize_from-IsWellFormed false false cs))
          (λ _.
            unit_step f c cs (normalize_from false cs) h
              (normalize_from-IsWellFormed false (is_high c) cs)))

-- The chunks of a message: none where it is blank, that is, where its normalized text has nothing but
-- white space, and else a cover of that text.
abbrev pub ChunksOf : ExtractedMessage → List SearchChunk → Type 0
ChunksOf message chunks =
    let text = normalize_entry_text message.content in
    ((all is_space text ≡ true) × (chunks ≡ []))
    ⊎ ((all is_space text ≡ false) × Covers text 0 chunks)

abbrev pub ChunksOfAll : List ExtractedMessage → List SearchChunk → Type 0
ChunksOfAll [] chunks = chunks ≡ []
ChunksOfAll (message ∷ messages) chunks =
    (own : List SearchChunk) × (later : List SearchChunk) × (chunks ≡ own ++ later)
    × ChunksOf message own
    × ChunksOfAll messages later

abbrev pub all_well_formed : List ExtractedMessage → Bool
all_well_formed = all (λ (m : ExtractedMessage). is_well_formed_text m.content)

abbrev pub units_of : List ExtractedMessage → ℕ
units_of [] = 0
units_of (m ∷ ms) = length (normalize_entry_text m.content) + units_of ms

-- What the chunks of messages are, with `ordinal` chunks before.
abbrev pub IsChunking : ℕ → List ExtractedMessage → Result ChunkError (List SearchChunk) → Type 0
IsChunking ordinal messages (err out_of_fuel) = ⊥
IsChunking ordinal messages (err session_invalid) = all_well_formed messages ≡ false
IsChunking ordinal messages (err session_limit) =
    max_conversation_chunks < ordinal + units_of messages
IsChunking ordinal messages (ok chunks) =
    (all_well_formed messages ≡ true) × ChunksOfAll messages chunks

-- The same of one message.
abbrev IsMessageChunking : ℕ → ExtractedMessage → Result ChunkError (List SearchChunk) → Type 0
IsMessageChunking ordinal message (err out_of_fuel) = ⊥
IsMessageChunking ordinal message (err session_invalid) =
    is_well_formed_text message.content ≡ false
IsMessageChunking ordinal message (err session_limit) =
    max_conversation_chunks < ordinal + length (normalize_entry_text message.content)
IsMessageChunking ordinal message (ok chunks) =
    (is_well_formed_text message.content ≡ true)
    × (length chunks ≤ length (normalize_entry_text message.content))
    × ChunksOf message chunks

Splits-IsMessageChunking :
    (ordinal : ℕ) (message : ExtractedMessage) (result : Result ChunkError (List SearchChunk))
    → is_well_formed_text message.content ≡ true
    → all is_space (normalize_entry_text message.content) ≡ false
    → Splits (normalize_entry_text message.content) ordinal 0 result
    → IsMessageChunking ordinal message result
Splits-IsMessageChunking ordinal message (err session_invalid) w b s = elim s [ ]
Splits-IsMessageChunking ordinal message (err out_of_fuel) w b s = elim s [ ]
Splits-IsMessageChunking ordinal message (err session_limit) w b s = omega (arith, s)
Splits-IsMessageChunking ordinal message (ok chunks) w b s =
    let (_, fits) = Covers-length (normalize_entry_text message.content) 0 chunks s in
    (w, omega (arith, fits), inr (b, s))

append_chunks :
    List SearchChunk → Result ChunkError (List SearchChunk) → Result ChunkError (List SearchChunk)
append_chunks own rest = rest >>= λ later. ok (own ++ later)

append-IsChunking :
    (ordinal : ℕ) (message : ExtractedMessage) (messages : List ExtractedMessage)
    (own : List SearchChunk) (rest : Result ChunkError (List SearchChunk))
    → IsMessageChunking ordinal message (ok own)
    → IsChunking (ordinal + length own) messages rest
    → IsChunking ordinal (message ∷ messages) (append_chunks own rest)
unfolding append_chunks
append-IsChunking ordinal message messages own (err out_of_fuel) m r = r
append-IsChunking ordinal message messages own (err session_invalid) (w, _, _) r =
    ground (arith, w, r)
append-IsChunking ordinal message messages own (err session_limit) (w, fits, _) r =
    more max_conversation_chunks ordinal (length own)
      (length (normalize_entry_text message.content)) (units_of messages) fits r
  where
    more : (limit o n t u : ℕ) → n ≤ t → limit < o + n + u → limit < o + (t + u)
    more limit o n t u le many = omega (arith, le, many)
append-IsChunking ordinal message messages own (ok later) (w, fits, covered) (ws, r) =
    (ground (arith, w, ws), (own, later, refl, covered, r))

bind-IsChunking :
    (ordinal : ℕ) (message : ExtractedMessage) (messages : List ExtractedMessage)
    (result : Result ChunkError (List SearchChunk))
    (next : List SearchChunk → Result ChunkError (List SearchChunk))
    → IsMessageChunking ordinal message result
    → ((own : List SearchChunk) → IsChunking (ordinal + length own) messages (next own))
    → IsChunking ordinal (message ∷ messages) (result >>= λ own. append_chunks own (next own))
bind-IsChunking ordinal message messages (err out_of_fuel) next m r = m
bind-IsChunking ordinal message messages (err session_invalid) next m r = ground (arith, m)
bind-IsChunking ordinal message messages (err session_limit) next m r =
    more max_conversation_chunks ordinal (length (normalize_entry_text message.content))
      (units_of messages) m
  where
    more : (limit o t u : ℕ) → limit < o + t → limit < o + (t + u)
    more limit o t u many = omega (arith, many)
bind-IsChunking ordinal message messages (ok own) next m r =
    append-IsChunking ordinal message messages own (next own) m (r own)

not_blank : (text : Text) → all is_space text ≡ false → 0 < length text
not_blank [] h = absurd (ground (arith, h))
not_blank (c ∷ cs) h = omega arith

module _ (search_hash : Text → Text) where
  chunk_message-IsMessageChunking :
      (ordinal : ℕ) (message : ExtractedMessage)
      → IsMessageChunking ordinal message (chunk_message search_hash ordinal message)
  unfolding chunk_message utf8_from
  chunk_message-IsMessageChunking ordinal message =
      let text = normalize_entry_text message.content in
      let P = IsMessageChunking ordinal message in
      if_holds P (not (is_well_formed_text message.content)) (λ broken. ground (arith, broken))
        (λ good.
          let w : is_well_formed_text message.content ≡ true = ground (arith, good) in
          let h = normalize_from-IsWellFormed false false message.content w in
          if_holds P (is_blank text)
            (λ blank. (w, omega arith, inl (sym (length-trim text) ∙ blank, refl)))
            (λ full.
              let some_word : all is_space text ≡ false = sym (length-trim text) ∙ full in
              Splits-IsMessageChunking ordinal message
                (split_from search_hash (suc (length text)) message text ordinal 0 0 0) w some_word
                (split_from-Splits search_hash (suc (length text)) message text ordinal 0 0 0 h
                  (well_formed-starts text h) (not_blank text some_word) refl (omega arith))))

  chunks_from-IsChunking :
      (ordinal : ℕ) (messages : List ExtractedMessage)
      → IsChunking ordinal messages (chunks_from search_hash ordinal messages)
  unfolding chunks_from append_chunks
  chunks_from-IsChunking ordinal [] = (refl, refl)
  chunks_from-IsChunking ordinal (message ∷ messages) =
      bind-IsChunking ordinal message messages (chunk_message search_hash ordinal message)
        (λ own. chunks_from search_hash (ordinal + length own) messages)
        (chunk_message-IsMessageChunking ordinal message)
        (λ own. chunks_from-IsChunking (ordinal + length own) messages)

  -- Chunking ends: it gives an error or chunks. It throws for an invalid session only where a
  -- message is not well formed, and for the limit only where the messages have more units than
  -- chunks are allowed. Its chunks are, message by message, none exactly for one of nothing but
  -- white space, and otherwise a cover of the text with normalized line endings, of at least one
  -- chunk: each is the text between two places, at most 3200 whole code points and 12288 bytes of
  -- UTF-8, with the places' offsets in UTF-8; the first starts at 0, each other one after the
  -- start and not after the end of the one before, and the last ends at the end.
  pub chunk_messages-IsChunking :
      (messages : List ExtractedMessage)
      → IsChunking 0 messages (chunk_messages search_hash messages)
  chunk_messages-IsChunking messages = chunks_from-IsChunking 0 messages
