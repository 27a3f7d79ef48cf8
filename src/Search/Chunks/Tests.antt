-- ===== src/Search/Chunks/Tests.antt =====
-- Runs of src/server/search/chunk.ts, with the text itself as its hash.
use chatwca.Prelude.{
  List, Result, [], err, length, map, ok, refl, replicate, ℕ, ◌++◌, ◌∷◌, ◌≡◌, ◌≤◌,
}
use chatwca.Prelude.Text.{Text, codes}
use chatwca.Search.Chunks.{
  ChunkError, ExtractedMessage, SearchChunk, assistant, chunk_messages, user,
  max_conversation_chunks,
}
use chatwca.Search.Chunks.Conversation.{IsChunking, chunk_messages-IsChunking}
use chatwca.Search.Chunks.Ordinals.{Numbered, chunk_messages-Numbered}
use chatwca.Search.Chunks.Runs.{chunking}

abbrev own_hash : Text → Text
own_hash t = t

-- A pair of surrogates after a line ending of two units.
abbrev greeting : ExtractedMessage
greeting = record {
  entry_id = codes "a";
  role = user;
  timestamp = 1;
  content = codes "Hi." ++ (0xd ∷ 0xa ∷ 0xd83d ∷ 0xde00 ∷ []);
}

abbrev blank_one : ExtractedMessage
blank_one = record { entry_id = codes "b"; role = assistant; timestamp = 2; content = codes "  " }

abbrev long_one : ExtractedMessage
long_one = record {
  entry_id = codes "c";
  role = assistant;
  timestamp = 3;
  content = replicate 3000 b'x' ++ codes ". " ++ replicate 300 b'y';
}

abbrev spans : Result ChunkError (List SearchChunk) → List (ℕ × ℕ)
spans (err thrown) = []
spans (ok chunks) = map (λ (c : SearchChunk). (c.source_byte_start, c.source_byte_end)) chunks

spans-greeting : spans (chunk_messages own_hash (greeting ∷ blank_one ∷ [])) ≡ (0, 8) ∷ []
unfolding chunking
spans-greeting = refl

spans-long_one : spans (chunk_messages own_hash (long_one ∷ [])) ≡ (0, 3002) ∷ (2602, 3302) ∷ []
unfolding chunking
spans-long_one = refl

abbrev chunks_in : Result ChunkError (List SearchChunk) → List SearchChunk
chunks_in (err thrown) = []
chunks_in (ok chunks) = chunks

abbrev long_chunks : List SearchChunk
long_chunks = chunks_in (chunk_messages own_hash (long_one ∷ greeting ∷ []))

long_chunked : chunk_messages own_hash (long_one ∷ greeting ∷ []) ≡ ok long_chunks
unfolding chunking
long_chunked = refl

chunk_messages-IsChunking_example :
    IsChunking 0
      (greeting ∷ blank_one ∷ long_one ∷ [])
      (chunk_messages own_hash (greeting ∷ blank_one ∷ long_one ∷ []))
chunk_messages-IsChunking_example =
    chunk_messages-IsChunking own_hash (greeting ∷ blank_one ∷ long_one ∷ [])

chunk_messages-Numbered_example :
    Numbered 0 long_chunks × (length long_chunks ≤ max_conversation_chunks)
chunk_messages-Numbered_example =
    chunk_messages-Numbered own_hash (long_one ∷ greeting ∷ []) long_chunks long_chunked
