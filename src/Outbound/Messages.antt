-- ===== src/Outbound/Messages.antt =====
-- src/server/outbound-flow.ts, `QueuedMessage`, `coalesceKey` and `isDroppable`. Of a server message
-- the controller reads the type and the fields below; every other message is `other_message`.
use chatwca.Prelude.{Bool, Option, arith, false, none, some, true, ℕ, ◌++◌, ◌↔◌, ◌≡◌, ◌≢◌}
use chatwca.Prelude.Text.{Text, text_eq, codes}

pub data ServerMessage : Type 0 where
  tool_updated : (workspace conversation call : Text) → ServerMessage
  history : (request : Option Text) (workspace : Text) → ServerMessage
  jobs : (request : Option Text) → ServerMessage
  other_message : ℕ → ServerMessage

unfoldable pub coalesce_key : ServerMessage → Option Text
coalesce_key (tool_updated w c t) =
    some (codes "tool:" ++ (w ++ (codes ":" ++ (c ++ (codes ":" ++ t)))))
coalesce_key (history none w) = some (codes "history:" ++ w)
coalesce_key (history (some r) w) = none
coalesce_key (jobs none) = some (codes "jobs")
coalesce_key (jobs (some r)) = none
coalesce_key (other_message n) = none

unfoldable pub is_droppable : ServerMessage → Bool
is_droppable (tool_updated w c t) = true
is_droppable (history none w) = true
is_droppable (history (some r) w) = false
is_droppable (jobs none) = true
is_droppable (jobs (some r)) = false
is_droppable (other_message n) = false

-- The item of a message; its text is a function of the message, and is not kept apart from it.
pub record QueuedMessage : Type 0 where
  pub message : ServerMessage
  pub bytes : ℕ

abbrev pub droppable : QueuedMessage → Bool
droppable item = is_droppable item.message

abbrev pub item_key : QueuedMessage → Option Text
item_key item = coalesce_key item.message

-- `previous?.coalesceKey === item.coalesceKey`, where the item has a key.
unfoldable pub same_key : Option Text → Option Text → Bool
same_key none k = false
same_key (some j) none = false
same_key (some j) (some k) = text_eq j k

-- What can be coalesced is exactly what can be dropped.
pub droppable_iff_key : (m : ServerMessage) → (is_droppable m ≡ true) ↔ (coalesce_key m ≢ none)
unfolding is_droppable coalesce_key
droppable_iff_key (tool_updated w c t) = ground arith
droppable_iff_key (history none w) = ground arith
droppable_iff_key (history (some r) w) = ground arith
droppable_iff_key (jobs none) = ground arith
droppable_iff_key (jobs (some r)) = ground arith
droppable_iff_key (other_message n) = ground arith

pub same_key-droppable :
    (x y : QueuedMessage)
    → same_key (item_key x) (item_key y) ≡ true
    → (droppable x ≡ true) × (droppable y ≡ true)
unfolding same_key
same_key-droppable x y h = ground (arith, droppable_iff_key x.message, droppable_iff_key y.message)
