-- ===== src/Outbound/Tests.antt =====
-- Runs of src/server/outbound-flow.ts on a socket that counts bytes: a slow client with a queue of
-- three messages, of which a newer tool update takes the place of an older one.
use chatwca.Prelude.{
  Bool, List, Option, [], arith, err, false, nat, none, refl, some, suc, true, zero, ℕ, ◌++◌, ◌+◌,
  ◌∷◌, ◌≡◌,
}
use mathlib.Core.List.{Sublist}
use chatwca.Outbound.Accounting.{IsAccounted, run-initial-IsAccounted}
use chatwca.Outbound.Sequence.{essential}
use chatwca.Outbound.Guarantees.{all_accepted, written-ordered, essential-delivered}
use chatwca.Outbound.Polling.{IsPolled, run-initial-IsPolled, slow_client-disposed}
use chatwca.Prelude.Text.{codes, text_eq}
use chatwca.Outbound.Messages.{
  ServerMessage, tool_updated, other_message, jobs, history, coalesce_key, is_droppable, same_key,
}
use chatwca.Outbound.Limits.{Limits, limits_of, not_positive_safe}
use chatwca.Outbound.Flow.{
  Platform, Flow, Event, initial, run, sends, flushed, timer_fires, step, append_item,
  close_slow_client, discard_droppable, dispose, pump, pump_loop, queue_item, replace_last, send,
  send_item, split_last, update_pressure,
}

record Socket : Type 0 where
  open_now : Bool
  pending : ℕ

abbrev size : ServerMessage → Option ℕ
size (tool_updated w c t) = some 4
size (history r w) = some 6
size (jobs r) = some 8
size (other_message zero) = none
size (other_message (suc n)) = some (suc n)

abbrev counted : Option ℕ → ℕ
counted none = 0
counted (some n) = n

abbrev counting : Platform
counting = record {
  Conn = Socket;
  is_open = λ c. c.open_now;
  buffered = λ c. c.pending;
  write = λ m c. record c { pending = c.pending + counted (size m) };
  close = λ c. record c { open_now = false };
  encoded_bytes = size;
}

abbrev small : Limits
small = record { high_water = 10; max_queue = 20; slow_timeout = 100; poll_interval = 5 }

abbrev fresh : Socket
fresh = record { open_now = true; pending = 0 }

abbrev update : ServerMessage
update = tool_updated (codes "w") (codes "c") (codes "t")

abbrev events : List (ℕ × Event counting small)
events =
    (0, sends (other_message 12))
    ∷ (1, sends (other_message 7))
    ∷ (2, sends update)
    ∷ (3, sends update)
    ∷ (4, sends (other_message 9))
    ∷ (5, flushed)
    ∷ []

defaults_of_none :
    limits_of (record {
      high_water = none;
      max_queue = none;
      slow_timeout = none;
      poll_interval = some (nat 0);
    })
    ≡ err not_positive_safe
unfolding limits_of
defaults_of_none = refl

abbrev after : List (ℕ × Event counting small) → Flow counting small
after es = run counting small (initial counting small fresh) es

queued_after : (after events).queued_bytes ≡ 20
unfolding initial run step send send_item queue_item append_item replace_last split_last
    discard_droppable pump pump_loop update_pressure close_slow_client dispose same_key is_droppable
    coalesce_key text_eq
queued_after = refl

run-initial-IsAccounted_example : IsAccounted counting small (after events)
run-initial-IsAccounted_example = run-initial-IsAccounted counting small fresh events

written-ordered_example :
    Sublist
      (after events).written
      (all_accepted counting small (initial counting small fresh) events)
written-ordered_example = written-ordered counting small fresh events

essential-delivered_example :
    essential ((after events).written ++ (after events).queue)
    ≡ essential (all_accepted counting small (initial counting small fresh) events)
unfolding initial run step send send_item queue_item append_item replace_last split_last
    discard_droppable pump pump_loop update_pressure close_slow_client dispose same_key is_droppable
    coalesce_key text_eq
essential-delivered_example = essential-delivered counting small fresh events refl

run-initial-IsPolled_example : IsPolled counting small (after events)
run-initial-IsPolled_example = run-initial-IsPolled counting small fresh events

abbrev slow : Flow counting small
slow = record {
  conn = record { open_now = true; pending = 12 };
  queue = record { message = other_message 7; bytes = 7 } ∷ [];
  queued_bytes = 7;
  pressure_started = some 3;
  timer = true;
  disposed = false;
  written = [];
}

slow_client-disposed_example :
    let s = step counting small slow (103, timer_fires) in
    (s.disposed ≡ true) × (s.conn ≡ record { open_now = false; pending = 12 }) × (s.queue ≡ [])
slow_client-disposed_example =
    slow_client-disposed counting small 103 3 slow refl refl refl (omega arith) refl (omega arith)
