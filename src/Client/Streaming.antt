-- ===== src/Client/Streaming.antt =====
-- Text that arrives in pieces.
use mathlib.Core.List.{append_assoc}
use chatwca.Prelude.{
  Bool-cases, List, Option-cases, [], ap, arith, get_elem?, inl, inr, length, refl, set_at, some,
  suc, zero, ℕ, ◌++◌, ◌==◌, ◌∷◌, ◌≡◌,
}
use chatwca.Prelude.Text.{Text, text_eq}
use chatwca.Protocol.Messages.{
  Block, NormalizedMessage, user_message, assistant_message, text_block, thinking_block,
  image_block, tool_call_block, tool_result_block,
}
use chatwca.Protocol.Events.{TextKind, text_kind, thinking_kind}
use chatwca.Client.Messages.{
  Messages, apply_delta, delta_blocks, delta_message, extend_block, new_block,
}

get_elem?-set_at :
    (i : ℕ) (b c : Block) (blocks : List Block)
    → get_elem? blocks i ≡ some c
    → get_elem? (set_at i b blocks) i ≡ some b
get_elem?-set_at i b c [] h = ground (arith, h)
get_elem?-set_at zero b c (x ∷ xs) h = refl
get_elem?-set_at (suc i) b c (x ∷ xs) h = get_elem?-set_at i b c xs h

set_at_twice :
    (i : ℕ) (b c : Block) (blocks : List Block) → set_at i c (set_at i b blocks) ≡ set_at i c blocks
set_at_twice i b c [] = refl
set_at_twice zero b c (x ∷ xs) = refl
set_at_twice (suc i) b c (x ∷ xs) = ap (◌∷◌ x) (set_at_twice i b c xs)

get_elem?-end :
    (b : Block) (blocks : List Block) → get_elem? (blocks ++ (b ∷ [])) (length blocks) ≡ some b
get_elem?-end b [] = refl
get_elem?-end b (x ∷ xs) = get_elem?-end b xs

set_at-end :
    (b c : Block) (blocks : List Block)
    → set_at (length blocks) c (blocks ++ (b ∷ [])) ≡ blocks ++ (c ∷ [])
set_at-end b c [] = refl
set_at-end b c (x ∷ xs) = ap (◌∷◌ x) (set_at-end b c xs)

extend_twice :
    (kind : TextKind) (d e : Text) (block : Block)
    → extend_block kind e (extend_block kind d block) ≡ extend_block kind (d ++ e) block
extend_twice text_kind d e (text_block t) = ap text_block (append_assoc t d e)
extend_twice text_kind d e (thinking_block t) = refl
extend_twice text_kind d e (image_block i a) = refl
extend_twice text_kind d e (tool_call_block c) = refl
extend_twice text_kind d e (tool_result_block r) = refl
extend_twice thinking_kind d e (text_block t) = refl
extend_twice thinking_kind d e (thinking_block t) = ap thinking_block (append_assoc t d e)
extend_twice thinking_kind d e (image_block i a) = refl
extend_twice thinking_kind d e (tool_call_block c) = refl
extend_twice thinking_kind d e (tool_result_block r) = refl

extend-new :
    (kind : TextKind) (d e : Text)
    → extend_block kind e (new_block kind d) ≡ new_block kind (d ++ e)
extend-new text_kind d e = refl
extend-new thinking_kind d e = refl

delta_twice :
    (i : ℕ) (kind : TextKind) (d e : Text) (blocks : List Block)
    → delta_blocks i kind e (delta_blocks i kind d blocks) ≡ delta_blocks i kind (d ++ e) blocks
unfolding delta_blocks
delta_twice i kind d e blocks = elim (Option-cases (get_elem? blocks i)) [
  | inl absent ↦ elim (Bool-cases (i == length blocks)) [
    | inl at_end ↦ ground (
      arith,
      absent,
      at_end,
      get_elem?-end (new_block kind d) blocks,
      set_at-end (new_block kind d) (extend_block kind e (new_block kind d)) blocks,
      extend-new kind d e,
    )
    | inr beyond ↦ ground (arith, absent, beyond)
  ]
  | inr (block, held) ↦ ground (
    arith,
    held,
    get_elem?-set_at i (extend_block kind d block) block blocks held,
    set_at_twice i (extend_block kind d block) (extend_block kind e (extend_block kind d block))
        blocks,
    extend_twice kind d e block,
  )
]

message_twice :
    (id : Text) (i : ℕ) (kind : TextKind) (d e : Text) (m : NormalizedMessage)
    → delta_message id i kind e (delta_message id i kind d m) ≡ delta_message id i kind (d ++ e) m
message_twice id i kind d e (user_message m) = refl
message_twice id i kind d e (assistant_message m) = elim (Bool-cases (text_eq m.entry_id id)) [
  | inl same ↦ ground (arith, same, delta_twice i kind d e m.blocks)
  | inr differs ↦ ground (arith, differs)
]

-- A text that arrives in two deltas for the same block gives the same messages as the two in one
-- delta, whatever the messages, the block's place and its kind.
pub apply_delta-append :
    (id : Text) (i : ℕ) (kind : TextKind) (d e : Text) (messages : Messages)
    → apply_delta id i kind e (apply_delta id i kind d messages)
      ≡ apply_delta id i kind (d ++ e) messages
unfolding apply_delta
apply_delta-append id i kind d e [] = refl
apply_delta-append id i kind d e (m ∷ ms) =
    ground (arith, message_twice id i kind d e m, apply_delta-append id i kind d e ms)
