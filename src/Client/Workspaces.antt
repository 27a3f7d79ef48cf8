-- ===== src/Client/Workspaces.antt =====
-- src/web/src/api/state.ts, the actions on workspaces and their history.
use chatwca.Prelude.{
  Bool, List, Option, [], all, any, false, if◌then◌else◌, keep, none, not, some, true, ◌||◌, ◌∷◌,
}
use chatwca.Prelude.Text.{Text, text_eq}
use chatwca.Prelude.ObjectMap.{keep_entries, map_values}
use chatwca.Protocol.Conversations.{
  ConversationSummary, ConversationStatus, WorkspaceSummary, closed, live,
}
use chatwca.Client.Projection.{ConversationProjection}
use chatwca.Client.State.{
  ChatClientState, WorkspaceClientErrorState, ClientErrorState, has_id, same_id, is_id, same_error,
}

-- `lastError` without the error of the history, where they are the same object.
abbrev pub other_error : ChatClientState → Option ClientErrorState
other_error state =
    if same_error state.last_error state.history_error then none else state.last_error

abbrev pub is_listed : Option Text → List WorkspaceSummary → Bool
is_listed none workspaces = true
is_listed (some id) workspaces = any (λ (w : WorkspaceSummary). text_eq w.id id) workspaces

unfoldable pub reduce_workspaces : ChatClientState → List WorkspaceSummary → ChatClientState
unfolding text_eq
reduce_workspaces state workspaces =
    if is_listed state.selected_workspace_id workspaces
    then record state { workspaces = workspaces }
    else record state {
      workspaces = workspaces;
      selected_workspace_id = none;
      selected_conversation_id = none;
      history_workspace_id = none;
      history = [];
      pending_history_workspace_id = none;
      history_error = none;
      last_error = other_error state;
    }

unfoldable pub select_workspace : ChatClientState → Option Text → ChatClientState
unfolding text_eq
select_workspace state id = if same_id id state.selected_workspace_id then state else record state {
  selected_workspace_id = id;
  selected_conversation_id = none;
  history_workspace_id = none;
  history = [];
  pending_history_workspace_id = none;
  history_error = none;
  last_error = none;
}

unfoldable pub reduce_history_pending : ChatClientState → Text → ChatClientState
unfolding text_eq
reduce_history_pending state id =
    if is_id id state.selected_workspace_id
    then record state {
      pending_history_workspace_id = some id;
      history_error = none;
      last_error = other_error state;
    }
    else state

unfoldable pub reduce_history_failed : ChatClientState → WorkspaceClientErrorState → ChatClientState
unfolding text_eq
reduce_history_failed state failure =
    if is_id failure.workspace_id state.selected_workspace_id
    then record state {
      pending_history_workspace_id = none;
      history_error = some failure;
      last_error = some failure.error;
    }
    else state

abbrev pub is_closed : ConversationStatus → Bool
is_closed closed = true
is_closed (live status) = false

abbrev pub closed_ids : List ConversationSummary → List Text
closed_ids [] = []
closed_ids (item ∷ rest) =
    let ids = closed_ids rest in if is_closed item.status then item.id ∷ ids else ids

-- `new Map(conversations.map(...)).get(id)`: a later summary of an identifier takes the place of an
-- earlier one.
unfoldable pub summary_of : Text → List ConversationSummary → Option ConversationSummary
unfolding text_eq
summary_of id [] = none
summary_of id (item ∷ rest) = elim (summary_of id rest) [
  | some later ↦ some later
  | none ↦ elim (text_eq item.id id) [ true ↦ some item | false ↦ none ]
]

abbrev pub retitle : Option ConversationSummary → ConversationProjection → ConversationProjection
retitle none p = p
retitle (some summary) p = record p {
  conversation = record (p.conversation) { title = summary.title };
}

abbrev pub stays_open : Text → List Text → Text → ConversationProjection → Bool
stays_open workspace ids id p =
    not (text_eq p.conversation.workspace_id workspace) || not (has_id id ids)

abbrev pub all_in : Text → List ConversationSummary → Bool
all_in workspace = all (λ (item : ConversationSummary). text_eq item.workspace_id workspace)

unfoldable pub reduce_history : ChatClientState → Text → List ConversationSummary → ChatClientState
unfolding text_eq keep_entries map_values summary_of
reduce_history state workspace listed =
    if not (is_id workspace state.selected_workspace_id) || not (all_in workspace listed)
    then state
    else let ids = closed_ids listed in
      record state {
        history_workspace_id = some workspace;
        history = listed;
        pending_history_workspace_id = none;
        history_error = none;
        last_error = other_error state;
        conversations =
            map_values (λ id p. retitle (summary_of id listed) p)
              (keep_entries (stays_open workspace ids) state.conversations);
        resync_conversation_ids = keep (λ id. not (has_id id ids)) state.resync_conversation_ids;
      }
