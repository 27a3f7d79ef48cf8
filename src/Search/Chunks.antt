-- ===== src/Search/Chunks.antt =====
-- src/server/search/chunk.ts: the split of messages into chunks that are embedded and searched.
pub mod Windows
pub mod Ends
pub mod Overlaps
pub mod Cover
pub mod Conversation
pub mod Ordinals
mod Runs
pub mod Bounds
mod Tests
use chatwca.Prelude.{
  Bool, List, Result, [], drop, err, false, if◌then◌else◌, leb, length, ltb, not, ok, suc, take,
  true, zero, ℕ, ◌%◌, ◌*◌, ◌++◌, ◌+◌, ◌-◌, ◌/◌, ◌==◌, ◌>>=◌, ◌∷◌,
}
use chatwca.Prelude.Text.{Text, codes, trim, split}
use chatwca.Search.CodePoints.{
  code_point_at, is_pair, is_well_formed_text, normalize_entry_text, starts_low, utf8_length,
  utf8_width,
}
use chatwca.Search.Boundaries.{
  patterns, first_boundary, match_line, match_paragraph, match_sentence,
}

abbrev pub max_chunk_characters : ℕ
max_chunk_characters = 3200

abbrev pub max_chunk_utf8_bytes : ℕ
max_chunk_utf8_bytes = 12 * 1024

abbrev pub chunk_overlap_characters : ℕ
chunk_overlap_characters = 400

abbrev pub max_conversation_chunks : ℕ
max_conversation_chunks = 20000

pub data Role : Type 0 where
  user assistant : Role

pub record ExtractedMessage : Type 0 where
  pub entry_id : Text
  pub role : Role
  pub timestamp : ℕ
  pub content : Text

pub record SearchChunk : Type 0 where
  pub stable_key : Text
  pub ordinal : ℕ
  pub split_ordinal : ℕ
  pub entry_id : Text
  pub role : Role
  pub timestamp : ℕ
  pub source_byte_start : ℕ
  pub source_byte_end : ℕ
  pub content : Text
  pub content_hash : Text
  pub embedding_input : Text
  pub embedding_input_hash : Text

-- `SearchSourceError`, and the loop's fuel used up.
pub data ChunkError : Type 0 where
  session_invalid session_limit out_of_fuel : ChunkError

-- `text.slice(start, end)`.
abbrev pub slice : ℕ → ℕ → Text → Text
slice start end text = take (end - start) (drop start text)

-- The units that `maximumEnd` passes, with the characters left and the bytes so far.
unfoldable pub maximum_units : ℕ → ℕ → Bool → Text → ℕ
unfolding code_point_at utf8_width
maximum_units characters bytes true [] = 0
maximum_units characters bytes true (c ∷ cs) = suc (maximum_units characters bytes false cs)
maximum_units zero bytes false text = 0
maximum_units (suc characters) bytes false [] = 0
maximum_units (suc characters) bytes false (c ∷ cs) =
    let bytes' = bytes + utf8_width (code_point_at c cs) in
    let rest = maximum_units characters bytes' (is_pair c cs) cs in
    if ltb max_chunk_utf8_bytes bytes' then 0 else suc rest

unfoldable pub maximum_end : Text → ℕ → ℕ
unfolding maximum_units
maximum_end text start = start + maximum_units max_chunk_characters 0 false (drop start text)

unfoldable pub preferred_end : Text → ℕ → ℕ → ℕ
unfolding first_boundary match_paragraph match_sentence match_line
preferred_end text start maximum =
    if maximum == length text
    then maximum
    else start + first_boundary patterns (slice start maximum text)

abbrev pub is_low_at : Text → ℕ → Bool
is_low_at text index = starts_low (drop index text)

-- The loop of `overlapStart`. Below 0, where `next` is -1 in the source, both go on to `end`.
unfoldable pub overlap_back : ℕ → Text → ℕ → ℕ → ℕ
overlap_back zero text start next = next
overlap_back (suc characters) text start next = elim (ltb start next) [
  | false ↦ next
  | true ↦ elim (is_low_at text (next - 1)) [
    | true ↦ overlap_back characters text start (next - 2)
    | false ↦ overlap_back characters text start (next - 1)
  ]
]

unfoldable pub overlap_start : Text → ℕ → ℕ → ℕ
unfolding overlap_back
overlap_start text start end =
    let next = overlap_back chunk_overlap_characters text start end in
    if ltb start next then next else end

-- `String(n)`; a number has at most as many digits as it has units.
unfoldable pub digits_before : ℕ → ℕ → Text → Text
digits_before zero n digits = digits
digits_before (suc fuel) n digits =
    let more = digits_before fuel (n / 10) ((n % 10 + b'0') ∷ digits) in
    if ltb n 10 then (n + b'0') ∷ digits else more

abbrev pub number_text : ℕ → Text
number_text n = digits_before (suc n) n []

abbrev pub role_text : Role → Text
role_text user = codes "User"
role_text assistant = codes "Assistant"

unfoldable pub document_embedding_input : Role → Text → Text
document_embedding_input role content = role_text role ++ codes " message:" ++ (0xa ∷ content)

abbrev pub stable_key_of : ExtractedMessage → ℕ → Text
stable_key_of message split =
    codes "conversation-message-chunks-v1"
    ++ (b':' ∷ message.entry_id)
    ++ (b':' ∷ number_text split)

abbrev pub after_chunk :
    SearchChunk → Result ChunkError (List SearchChunk) → Result ChunkError (List SearchChunk)
after_chunk chunk rest = rest >>= λ chunks. ok (chunk ∷ chunks)

abbrev pub is_blank : Text → Bool
is_blank text = length (trim text) == 0

-- `search_hash` is SHA-256 in hexadecimal digits.
module _ (search_hash : Text → Text) where
  unfoldable pub chunk_of : ExtractedMessage → ℕ → ℕ → ℕ → Text → SearchChunk
  unfolding document_embedding_input digits_before
  chunk_of message ordinal split byte_start quoted =
      let input = document_embedding_input message.role quoted in
      record {
        stable_key = stable_key_of message split;
        ordinal = ordinal;
        split_ordinal = split;
        entry_id = message.entry_id;
        role = message.role;
        timestamp = message.timestamp;
        source_byte_start = byte_start;
        source_byte_end = byte_start + utf8_length quoted;
        content = quoted;
        content_hash = search_hash quoted;
        embedding_input = input;
        embedding_input_hash = search_hash input;
      }

  -- The inner loop, from `start` on, with `ordinal` chunks before.
  unfoldable pub split_from :
      ℕ → ExtractedMessage → Text → ℕ → ℕ → ℕ → ℕ → Result ChunkError (List SearchChunk)
  unfolding chunk_of maximum_end preferred_end overlap_start
  split_from zero message text ordinal split start byte_start = err out_of_fuel
  split_from (suc fuel) message text ordinal split start byte_start =
      let end = preferred_end text start (maximum_end text start) in
      let chunk = chunk_of message ordinal split byte_start (slice start end text) in
      let next = overlap_start text start end in
      elim (ltb start (length text)) [
        | false ↦ ok []
        | true ↦ elim (leb max_conversation_chunks ordinal) [
          | true ↦ err session_limit
          | false ↦ elim (end == length text) [
            | true ↦ ok (chunk ∷ [])
            | false ↦ after_chunk chunk (
                split_from fuel message text (suc ordinal) (suc split) next
                  (byte_start + utf8_length (slice start next text)))
          ]
        ]
      ]

  -- The chunks of one message, with `ordinal` chunks before.
  unfoldable pub chunk_message : ℕ → ExtractedMessage → Result ChunkError (List SearchChunk)
  unfolding split_from is_well_formed_text normalize_entry_text trim
  chunk_message ordinal message =
      let text = normalize_entry_text message.content in
      if not (is_well_formed_text message.content)
      then err session_invalid
      else if is_blank text
      then ok []
      else split_from (suc (length text)) message text ordinal 0 0 0

  unfoldable pub chunks_from : ℕ → List ExtractedMessage → Result ChunkError (List SearchChunk)
  unfolding chunk_message
  chunks_from ordinal [] = ok []
  chunks_from ordinal (message ∷ messages) = chunk_message ordinal message >>= λ chunks.
      chunks_from (ordinal + length chunks) messages >>= λ later. ok (chunks ++ later)

  abbrev pub chunk_messages : List ExtractedMessage → Result ChunkError (List SearchChunk)
  chunk_messages = chunks_from 0
