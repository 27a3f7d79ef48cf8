-- ===== src/Protocol/Messages.antt =====
-- src/shared/protocol.ts, messages and their blocks.
use chatwca.Prelude.{Bool, List, Number, Option, false, true, ℕ}
use chatwca.Prelude.Text.{Text}

pub data ToolStatus : Type 0 where
  pending running succeeded failed : ToolStatus

pub record ToolCallBlock : Type 0 where
  pub tool_call_id : Text
  pub tool_name : Text
  pub arguments : Text
  pub status : ToolStatus

pub record ToolResultBlock : Type 0 where
  pub tool_call_id : Text
  pub tool_name : Option Text
  pub content : Text
  pub is_error : Bool
  pub truncated : Bool
  pub original_bytes : Option ℕ

-- The blocks of user and assistant messages; an image is its payload or reference, and its `alt`.
pub data Block : Type 0 where
  text_block thinking_block : Text → Block
  image_block : Text → Option Text → Block
  tool_call_block : ToolCallBlock → Block
  tool_result_block : ToolResultBlock → Block

pub record ContextUsage : Type 0 where
  pub tokens : Option Number
  pub context_window : Number
  pub percent : Option Number

pub record UserMessage : Type 0 where
  pub entry_id : Text
  pub blocks : List Block
  pub timestamp : Option Number
  pub fork_eligible : Bool

pub record AssistantMessage : Type 0 where
  pub entry_id : Text
  pub blocks : List Block
  pub timestamp : Option Number
  pub stop_reason : Option Text
  pub error : Option (Text × Text)
  pub usage : Option Text

pub data NormalizedMessage : Type 0 where
  user_message : UserMessage → NormalizedMessage
  assistant_message : AssistantMessage → NormalizedMessage

abbrev pub entry_id : NormalizedMessage → Text
entry_id (user_message m) = m.entry_id
entry_id (assistant_message m) = m.entry_id

abbrev pub is_assistant : NormalizedMessage → Bool
is_assistant (user_message m) = false
is_assistant (assistant_message m) = true
