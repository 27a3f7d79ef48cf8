-- ===== src/Client/Messages.antt =====
-- src/web/src/api/state.ts, what an event does to the messages of a conversation.
use chatwca.Prelude.{
  Bool, List, Option, [], any, false, find_index, find_last_index, get_elem?, if◌then◌else◌, length,
  map, none, set_at, some, true, ℕ, ◌&&◌, ◌++◌, ◌==◌, ◌∷◌,
}
use chatwca.Prelude.Text.{Text, codes, text_eq, starts_with}
use chatwca.Protocol.Messages.{
  AssistantMessage, Block, NormalizedMessage, ToolCallBlock, ToolResultBlock, ToolStatus,
  assistant_message, user_message, entry_id, is_assistant, text_block, thinking_block,
  tool_call_block, tool_result_block, running, failed, succeeded,
}
use chatwca.Protocol.Events.{TextKind, text_kind, thinking_kind}

abbrev pub Messages : Type 0
Messages = List NormalizedMessage

abbrev pub first_of : Option ℕ → Option ℕ → Option ℕ
first_of none later = later
first_of (some i) later = some i

abbrev pub same_role : NormalizedMessage → NormalizedMessage → Bool
same_role (user_message m) (user_message n) = true
same_role (assistant_message m) (assistant_message n) = true
same_role _ _ = false

abbrev pub has_entry_id : Text → NormalizedMessage → Bool
has_entry_id id message = text_eq (entry_id message) id

abbrev pub is_stream_of : NormalizedMessage → NormalizedMessage → Bool
is_stream_of message item = same_role item message && starts_with (codes "stream:") (entry_id item)

-- Where a message goes: at the one of its entry, or, when it is complete, at the latest message of
-- its role that is in progress.
abbrev pub place_of : Messages → NormalizedMessage → Bool → Option ℕ
place_of messages message completed =
    first_of (find_index (has_entry_id (entry_id message)) messages)
      (if completed then find_last_index (is_stream_of message) messages else none)

abbrev pub place : Messages → NormalizedMessage → Option ℕ → Messages
place messages message none = messages ++ (message ∷ [])
place messages message (some i) = set_at i message messages

unfoldable pub replace_message : Messages → NormalizedMessage → Bool → Messages
unfolding text_eq
replace_message messages message completed =
    place messages message (place_of messages message completed)

abbrev pub has_tool_call_id : Text → Block → Bool
has_tool_call_id id (tool_call_block call) = text_eq call.tool_call_id id
has_tool_call_id id (tool_result_block result) = text_eq result.tool_call_id id
has_tool_call_id id _ = false

abbrev pub has_tool : Text → NormalizedMessage → Bool
has_tool id (user_message m) = false
has_tool id (assistant_message m) = any (has_tool_call_id id) m.blocks

abbrev pub find_entry : Option Text → Messages → Option ℕ
find_entry none messages = none
find_entry (some id) messages = find_index (has_entry_id id) messages

abbrev pub find_tool : Option Text → Messages → Option ℕ
find_tool none messages = none
find_tool (some id) messages = find_index (has_tool id) messages

-- The message that an update is for: the one of the entry, else the one with the tool call, else the
-- latest of the assistant's.
abbrev pub target_of : Messages → Option Text → Option Text → Option ℕ
target_of messages entry tool =
    first_of (find_entry entry messages)
      (first_of (find_tool tool messages) (find_last_index is_assistant messages))

abbrev pub update_message :
    (AssistantMessage → AssistantMessage) → ℕ → Option NormalizedMessage → Messages → Messages
update_message update i (some (assistant_message m)) messages =
    set_at i (assistant_message (update m)) messages
update_message update i _ messages = messages

unfoldable pub update_assistant :
    Messages → Option Text → (AssistantMessage → AssistantMessage) → Option Text → Messages
unfolding text_eq
update_assistant messages entry update tool = elim (target_of messages entry tool) [
  | none ↦ messages
  | some i ↦ update_message update i (get_elem? messages i) messages
]

abbrev pub with_status : Text → ToolStatus → Block → Block
with_status id status (tool_call_block call) =
    if text_eq call.tool_call_id id
    then tool_call_block (record call { status = status })
    else tool_call_block call
with_status id status block = block

unfoldable pub update_tool_call_status : List Block → Text → ToolStatus → List Block
unfolding text_eq
update_tool_call_status blocks id status = map (with_status id status) blocks

-- The block at the first place that passes the test, or else at the end.
abbrev pub put_block : (Block → Bool) → Block → List Block → List Block
put_block test block blocks = elim (find_index test blocks) [
  | none ↦ blocks ++ (block ∷ [])
  | some i ↦ set_at i block blocks
]

abbrev pub is_call_of : Text → Block → Bool
is_call_of id (tool_call_block call) = text_eq call.tool_call_id id
is_call_of id _ = false

abbrev pub is_result_of : Text → Block → Bool
is_result_of id (tool_result_block result) = text_eq result.tool_call_id id
is_result_of id _ = false

-- The three updates of the assistant's message by a tool event.
unfoldable pub start_tool : ToolCallBlock → AssistantMessage → AssistantMessage
unfolding text_eq
start_tool tool m = record m {
  blocks = put_block (is_call_of tool.tool_call_id) (tool_call_block tool) m.blocks;
}

abbrev pub partial_result : Text → Text → Bool → ToolResultBlock
partial_result id content truncated = record {
  tool_call_id = id;
  tool_name = none;
  content = content;
  is_error = false;
  truncated = truncated;
  original_bytes = none;
}

-- The place is found after the statuses are set, which moves no block.
unfoldable pub update_tool : Text → Text → Bool → AssistantMessage → AssistantMessage
unfolding update_tool_call_status
update_tool id content truncated m = record m {
  blocks =
      put_block (is_result_of id) (tool_result_block (partial_result id content truncated))
        (update_tool_call_status m.blocks id running);
}

unfoldable pub complete_tool : ToolResultBlock → AssistantMessage → AssistantMessage
unfolding update_tool_call_status
complete_tool result m =
    let status = if result.is_error then failed else succeeded in
    record m {
      blocks =
          put_block (is_result_of result.tool_call_id) (tool_result_block result)
            (update_tool_call_status m.blocks result.tool_call_id status);
    }

abbrev pub new_block : TextKind → Text → Block
new_block text_kind t = text_block t
new_block thinking_kind t = thinking_block t

-- The block that a delta extends, where it is of the delta's kind.
abbrev pub extend_block : TextKind → Text → Block → Block
extend_block text_kind delta (text_block t) = text_block (t ++ delta)
extend_block thinking_kind delta (thinking_block t) = thinking_block (t ++ delta)
extend_block _ delta block = block

unfoldable pub delta_blocks : ℕ → TextKind → Text → List Block → List Block
delta_blocks index kind delta blocks = elim (get_elem? blocks index) [
  | none ↦ if index == length blocks then blocks ++ (new_block kind delta ∷ []) else blocks
  | some block ↦ set_at index (extend_block kind delta block) blocks
]

abbrev pub delta_message : Text → ℕ → TextKind → Text → NormalizedMessage → NormalizedMessage
delta_message id index kind delta (user_message m) = user_message m
delta_message id index kind delta (assistant_message m) =
    if text_eq m.entry_id id
    then assistant_message (record m { blocks = delta_blocks index kind delta m.blocks })
    else assistant_message m

unfoldable pub apply_delta : Text → ℕ → TextKind → Text → Messages → Messages
unfolding text_eq delta_blocks
apply_delta id index kind delta messages = map (delta_message id index kind delta) messages
