-- ===== src/Protocol/Events.antt =====
-- src/shared/protocol.ts, the events of a conversation.
use chatwca.Prelude.{Bool, Option, ℕ}
use chatwca.Prelude.Text.{Text}
use chatwca.Protocol.Messages.{ContextUsage, NormalizedMessage, ToolCallBlock, ToolResultBlock}
use chatwca.Protocol.Conversations.{LiveConversationStatus, QueueState}

pub data RetryPhase : Type 0 where
  retry_scheduled retry_started retry_completed : RetryPhase

pub data CompactionPhase : Type 0 where
  compaction_started compaction_completed compaction_aborted compaction_failed : CompactionPhase

pub data NoticeLevel : Type 0 where
  info warning error_level : NoticeLevel

pub data StatusNotice : Type 0 where
  retry : RetryPhase → Text → Option ℕ → Option ℕ → Option ℕ → StatusNotice
  compaction : CompactionPhase → Text → StatusNotice
  runtime : NoticeLevel → Text → StatusNotice

pub data BlockedProtocol : Type 0 where
  http https_connect socks5_tcp : BlockedProtocol

pub data BlockedReason : Type 0 where
  explicit_deny not_allowed local_address port_not_allowed dns_failure limit_exceeded
        proxy_unavailable :
      BlockedReason

pub record NetworkBlocked : Type 0 where
  pub host : Text
  pub port : ℕ
  pub protocol : BlockedProtocol
  pub reason : BlockedReason
  pub occurrence_count : Option ℕ

pub data TextKind : Type 0 where
  text_kind thinking_kind : TextKind

pub data EventPayload : Type 0 where
  message_started : NormalizedMessage → EventPayload
  message_delta : Text → ℕ → TextKind → Text → EventPayload
  message_completed : NormalizedMessage → Option ContextUsage → EventPayload
  tool_started : Option Text → ToolCallBlock → EventPayload
  tool_updated : Text → Text → Bool → EventPayload
  tool_completed : ToolResultBlock → EventPayload
  queue_changed : QueueState → EventPayload
  status_changed : LiveConversationStatus → EventPayload
  metadata_changed : Text → Bool → LiveConversationStatus → EventPayload
  notice_given : StatusNotice → EventPayload
  network_blocked : NetworkBlocked → EventPayload

pub record ConversationEvent : Type 0 where
  pub workspace_id : Text
  pub conversation_id : Text
  pub revision : ℕ
  pub payload : EventPayload

-- `NetworkBlockedEvent`: an event with the payload of a denial.
pub record NetworkBlockedEvent : Type 0 where
  pub workspace_id : Text
  pub conversation_id : Text
  pub revision : ℕ
  pub payload : NetworkBlocked

abbrev pub blocked_event : ConversationEvent → NetworkBlocked → NetworkBlockedEvent
blocked_event event blocked = record {
  workspace_id = event.workspace_id;
  conversation_id = event.conversation_id;
  revision = event.revision;
  payload = blocked;
}
