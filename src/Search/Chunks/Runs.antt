-- ===== src/Search/Chunks/Runs.antt =====
-- What a run of src/server/search/chunk.ts computes with.
use chatwca.Prelude.{}
use chatwca.Prelude.Text.{trim}
use chatwca.Search.CodePoints.{is_well_formed_text, normalize_entry_text, utf8_from}
use chatwca.Search.Chunks.{split_from, chunk_message, chunks_from}

unfoldable pub chunking : Unit {0}
unfolding trim is_well_formed_text normalize_entry_text utf8_from split_from chunk_message
    chunks_from
chunking = tt
