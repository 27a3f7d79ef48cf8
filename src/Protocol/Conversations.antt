-- ===== src/Protocol/Conversations.antt =====
-- src/shared/protocol.ts, conversations and workspaces as the server reports them.
use chatwca.Prelude.{Bool, List, Number, Option, ℕ}
use chatwca.Prelude.Text.{Text}
use chatwca.Protocol.Messages.{ContextUsage, NormalizedMessage}

pub data LiveConversationStatus : Type 0 where
  idle streaming aborting error : LiveConversationStatus

pub data ConversationStatus : Type 0 where
  closed : ConversationStatus
  live : LiveConversationStatus → ConversationStatus

pub record ConversationOwner : Type 0 where
  pub job_id : Text
  pub run_id : Text

pub record ConversationSummary : Type 0 where
  pub id : Text
  pub workspace_id : Text
  pub session_file : Text
  pub title : Text
  pub cwd : Text
  pub created_at : Option Number
  pub modified_at : Number
  pub message_count : ℕ
  pub status : ConversationStatus
  pub runnable : Bool
  pub owner : Option ConversationOwner

pub record QueuedPrompt : Type 0 where
  pub prompt_text : Text
  pub image_count : ℕ

pub record QueueState : Type 0 where
  pub steering : List QueuedPrompt
  pub follow_up : List QueuedPrompt

-- `policies` are the model, the security profile, the network policy and the effective tools.
pub record ConversationState : Type 0 where
  pub id : Text
  pub workspace_id : Text
  pub session_file : Text
  pub title : Text
  pub cwd : Text
  pub status : LiveConversationStatus
  pub created_at : Number
  pub last_active_at : Number
  pub revision : ℕ
  pub durable : Bool
  pub context_usage : Option ContextUsage
  pub messages : List NormalizedMessage
  pub queue : QueueState
  pub policies : Text
  pub owner : Option ConversationOwner

-- Of a workspace the client's state reads the identity.
pub record WorkspaceSummary : Type 0 where
  pub id : Text
  pub settings : Text
