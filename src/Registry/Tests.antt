-- ===== src/Registry/Tests.antt =====
-- Runs of src/server/conversation-registry.ts with room for two conversations.
use mathlib.Core.Option.{get_or}
use chatwca.Prelude.{
  Bool, Option, [], arith, false, get_elem?, length, ltb, none, refl, some, true, ℕ, ◌++◌, ◌≡◌, ◌≢◌,
}
use chatwca.Prelude.Text.{Text, codes}
use chatwca.Protocol.Conversations.{idle}
use chatwca.Registry.Records.{ConversationRecord}
use chatwca.Registry.Capacity.{
  Registry, Reservation, create_registry, grant, register, release_capacity, reserve_turn, Turn,
  evicting,
}
use chatwca.Registry.Steps.{Reachable, next, registered, released, reserved, start}
use chatwca.Registry.Bounds.{IsWithin, Reachable-IsWithin}
use chatwca.Registry.Writers.{Reachable-one_writer}
use chatwca.Registry.Selection.{IsStrictOrder}
use chatwca.Registry.Admission.{IsDecision, reserve_turn-IsDecision}

-- An order of identifiers by their lengths.
abbrev shorter : Text → Text → Bool
shorter a b = ltb (length a) (length b)

shorter-IsStrictOrder : IsStrictOrder shorter
shorter-IsStrictOrder = record {
  irreflexive = λ a. same (length a);
  transitive = λ a b c. chain (length a) (length b) (length c);
}
  where
    same : (n : ℕ) → ltb n n ≡ false
    same n = ground arith

    chain : (m n k : ℕ) → ltb m n ≡ true → ltb n k ≡ true → ltb m k ≡ true
    chain m n k h l = ground (arith, h, l)

abbrev fresh_record : Text → ℕ → ConversationRecord
fresh_record id now = record {
  reference = 0;
  id = id;
  session_file = id ++ codes ".jsonl";
  status = idle;
  session_streaming = false;
  created_at = now;
  last_active_at = now;
  closing = false;
  forks = 0;
}

abbrev evicted_reference : Turn → Option ℕ
evicted_reference (evicting r s) = some r
evicted_reference _ = none

abbrev slot : Reservation
slot = record { held = true; registered = false }

abbrev one_granted : Registry
one_granted = grant create_registry

abbrev one_live : Registry
one_live = register 0 slot (fresh_record (codes "a") 5) one_granted

abbrev two_granted : Registry
two_granted = grant (release_capacity 0 one_live)

abbrev two_live : Registry
two_live = release_capacity 1 (register 1 slot (fresh_record (codes "b") 3) two_granted)

two_live-Reachable : Reachable shorter 2 two_live
unfolding create_registry reserve_turn register release_capacity
two_live-Reachable =
    let one = next {s' = one_granted} start (reserved none refl) in
    let live =
      next {s' = one_live} one
        (registered 0 slot (fresh_record (codes "a") 5) refl refl refl refl) in
    let free = next {s' = release_capacity 0 one_live} live (released 0) in
    let two = next {s' = two_granted} free (reserved none refl) in
    let both = next two (registered 1 slot (fresh_record (codes "b") 3) refl refl refl refl) in
    next both (released 1)

-- The record that was used last is kept.
evicts_older : evicted_reference (reserve_turn shorter 2 none two_live) ≡ some 1
unfolding create_registry reserve_turn register release_capacity
evicts_older = refl

Reachable-IsWithin_example : IsWithin 2 two_live
Reachable-IsWithin_example = Reachable-IsWithin shorter 2 two_live two_live-Reachable

record_at : ℕ → Registry → ConversationRecord
record_at k s = get_or (get_elem? s.records k) (fresh_record [] 0)

first_found : get_elem? two_live.records 0 ≡ some (record_at 0 two_live)
unfolding create_registry register release_capacity record_at
first_found = refl

second_found : get_elem? two_live.records 1 ≡ some (record_at 1 two_live)
unfolding create_registry register release_capacity record_at
second_found = refl

Reachable-one_writer_example :
    ((record_at 0 two_live).id ≢ (record_at 1 two_live).id)
    × ((record_at 0 two_live).session_file ≢ (record_at 1 two_live).session_file)
Reachable-one_writer_example =
    Reachable-one_writer shorter 2 two_live 0 1 (record_at 0 two_live) (record_at 1 two_live)
      two_live-Reachable (omega arith) first_found second_found

reserve_turn-IsDecision_example :
    IsDecision 2 shorter none two_live (reserve_turn shorter 2 none two_live)
reserve_turn-IsDecision_example =
    reserve_turn-IsDecision 2 shorter none two_live shorter-IsStrictOrder
