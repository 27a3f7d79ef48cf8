-- ===== src/Client/Projection.antt =====
-- src/web/src/api/state.ts, `applyConversationEvent` and `collectNetworkBlocked`: one conversation.
use chatwca.Prelude.{
  Bool, List, Option, [], false, find_last_index, if◌then◌else◌, is_some, last_items, length, none,
  set_at, some, true, ℕ, ◌&&◌, ◌++◌, ◌==◌, ◌∷◌,
}
use chatwca.Prelude.Text.{text_eq}
use chatwca.Protocol.Messages.{ContextUsage}
use chatwca.Protocol.Conversations.{ConversationState}
use chatwca.Protocol.Events.{
  BlockedProtocol, BlockedReason, EventPayload, ConversationEvent, NetworkBlockedEvent,
  blocked_event, StatusNotice, message_started, message_delta, message_completed, tool_started,
  tool_updated, tool_completed, queue_changed, status_changed, metadata_changed, notice_given,
  network_blocked, compaction, compaction_completed, http, https_connect, socks5_tcp, explicit_deny,
  not_allowed, local_address, port_not_allowed, dns_failure, limit_exceeded, proxy_unavailable,
}
use chatwca.Client.Messages.{
  replace_message, update_assistant, start_tool, update_tool, complete_tool, apply_delta,
}

pub record PositionedStatusNotice : Type 0 where
  pub notice : StatusNotice
  pub after_message_count : ℕ

pub record ConversationProjection : Type 0 where
  pub conversation : ConversationState
  pub notices : List PositionedStatusNotice
  pub network_blocked : List NetworkBlockedEvent

abbrev pub max_network_blocked_notices : ℕ
max_network_blocked_notices = 50

abbrev pub protocol_number : BlockedProtocol → ℕ
protocol_number http = 0
protocol_number https_connect = 1
protocol_number socks5_tcp = 2

abbrev pub reason_number : BlockedReason → ℕ
reason_number explicit_deny = 0
reason_number not_allowed = 1
reason_number local_address = 2
reason_number port_not_allowed = 3
reason_number dns_failure = 4
reason_number limit_exceeded = 5
reason_number proxy_unavailable = 6

unfoldable pub same_blocked_destination : NetworkBlockedEvent → NetworkBlockedEvent → Bool
unfolding text_eq
same_blocked_destination left right =
    text_eq left.payload.host right.payload.host
    && left.payload.port == right.payload.port
    && protocol_number left.payload.protocol == protocol_number right.payload.protocol
    && reason_number left.payload.reason == reason_number right.payload.reason

unfoldable pub collect_network_blocked :
    List NetworkBlockedEvent → NetworkBlockedEvent → List NetworkBlockedEvent
unfolding same_blocked_destination
collect_network_blocked current event =
    let appended = last_items max_network_blocked_notices (current ++ (event ∷ [])) in
    if is_some event.payload.occurrence_count
    then elim (find_last_index (λ candidate. same_blocked_destination candidate event) current) [
      | none ↦ appended
      | some i ↦ last_items max_network_blocked_notices (set_at i event current)
    ]
    else appended

-- What a compaction that is completed leaves of the usage.
abbrev pub unknown_usage : Option ContextUsage → Option ContextUsage
unknown_usage none = none
unknown_usage (some usage) =
    some (record { tokens = none; context_window = usage.context_window; percent = none })

abbrev pub noticed_usage : StatusNotice → Option ContextUsage → Option ContextUsage
noticed_usage (compaction compaction_completed message) usage = unknown_usage usage
noticed_usage _ usage = usage

-- The `switch` of `applyConversationEvent`, without the revision.
unfoldable pub apply_payload : ConversationState → EventPayload → ConversationState
unfolding replace_message update_assistant start_tool update_tool complete_tool apply_delta
apply_payload c (message_started message) = record c {
  messages = replace_message c.messages message false;
}
apply_payload c (message_completed message usage) = record c {
  messages = replace_message c.messages message true;
  context_usage = usage;
}
apply_payload c (message_delta id index kind delta) = record c {
  messages = apply_delta id index kind delta c.messages;
}
apply_payload c (tool_started entry tool) = record c {
  messages = update_assistant c.messages entry (start_tool tool) none;
}
apply_payload c (tool_updated id content truncated) = record c {
  messages = update_assistant c.messages none (update_tool id content truncated) (some id);
}
apply_payload c (tool_completed result) = record c {
  messages = update_assistant c.messages none (complete_tool result) (some result.tool_call_id);
}
apply_payload c (queue_changed queue) = record c { queue = queue }
apply_payload c (status_changed status) = record c { status = status }
apply_payload c (metadata_changed title durable status) = record c {
  title = title;
  durable = durable;
  status = status;
}
apply_payload c (notice_given notice) = record c {
  context_usage = noticed_usage notice c.context_usage;
}
apply_payload c (network_blocked blocked) = c

unfoldable pub apply_conversation_event : ConversationState → ConversationEvent → ConversationState
unfolding apply_payload
apply_conversation_event c event = record (apply_payload c event.payload) {
  revision = event.revision;
}

abbrev pub next_notices :
    ConversationState → EventPayload → List PositionedStatusNotice → List PositionedStatusNotice
next_notices c (notice_given notice) notices =
    last_items 100
      (notices ++ (record { notice = notice; after_message_count = length c.messages } ∷ []))
next_notices c _ notices = notices

abbrev pub next_blocked :
    ConversationEvent → EventPayload → List NetworkBlockedEvent → List NetworkBlockedEvent
next_blocked event (network_blocked blocked) current =
    collect_network_blocked current (blocked_event event blocked)
next_blocked event _ current = current

-- The projection after an event that is applied.
unfoldable pub apply_to_projection :
    ConversationProjection → ConversationEvent → ConversationProjection
unfolding apply_conversation_event collect_network_blocked
apply_to_projection p event = record {
  conversation = apply_conversation_event p.conversation event;
  notices = next_notices p.conversation event.payload p.notices;
  network_blocked = next_blocked event event.payload p.network_blocked;
}
