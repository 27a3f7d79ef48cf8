-- ===== src/Outbound/Flow.antt =====
-- src/server/outbound-flow.ts, `OutboundFlowController`. The socket is outside the program: its
-- state changes by `write` and `close` and, between the calls, on its own. Its send callbacks come
-- after the call that made them. The clock is read once in each operation.
use chatwca.Prelude.{
  Bool, List, Option, [], false, if◌then◌else◌, leb, ltb, none, not, some, true, ℕ, ◌&&◌, ◌++◌, ◌+◌,
  ◌-◌, ◌||◌, ◌∷◌,
}
use chatwca.Outbound.Messages.{ServerMessage, QueuedMessage, same_key, droppable, item_key}
use chatwca.Outbound.Limits.{Limits}

-- `OutboundSocket`, and `JSON.stringify` with the length of its bytes (`none` where it throws).
pub record Platform : Type 1 where
  pub Conn : Type 0
  pub is_open : Conn → Bool
  pub buffered : Conn → ℕ
  pub write : ServerMessage → Conn → Conn
  pub close : Conn → Conn
  pub encoded_bytes : ServerMessage → Option ℕ

module _ (p : Platform) (l : Limits) where
  open p use {Conn, is_open, buffered, encoded_bytes}

  -- `written` records what was handed to the socket; `timer` says that the poll timer is set.
  pub record Flow : Type 0 where
    pub conn : Conn
    pub queue : List QueuedMessage
    pub queued_bytes : ℕ
    pub pressure_started : Option ℕ
    pub timer : Bool
    pub disposed : Bool
    pub written : List QueuedMessage

  unfoldable pub initial : Conn → Flow
  initial conn = record {
    conn = conn;
    queue = [];
    queued_bytes = 0;
    pressure_started = none;
    timer = false;
    disposed = false;
    written = [];
  }

  abbrev pub write_item : QueuedMessage → Flow → Flow
  write_item item s = record s {
    conn = p.write item.message s.conn;
    written = s.written ++ (item ∷ []);
  }

  unfoldable pub dispose : Flow → Flow
  dispose s =
      if s.disposed
      then s
      else record s { disposed = true; timer = false; queue = []; queued_bytes = 0 }

  unfoldable pub close_slow_client : Flow → Flow
  unfolding dispose
  close_slow_client s = if s.disposed then s else dispose (record s { conn = p.close s.conn })

  abbrev pub is_empty : List QueuedMessage → Bool
  is_empty [] = true
  is_empty (_ ∷ _) = false

  abbrev pub started_at : Option ℕ → ℕ → ℕ
  started_at none now = now
  started_at (some t) now = t

  abbrev pub is_pressured : Flow → Bool
  is_pressured s = not (is_empty s.queue) || leb l.high_water (buffered s.conn)

  unfoldable pub update_pressure : ℕ → Flow → Flow
  unfolding dispose close_slow_client
  update_pressure now s =
      if s.disposed || not (is_open s.conn)
      then dispose s
      else if not (is_pressured s)
      then record s { pressure_started = none; timer = false }
      else let started = started_at s.pressure_started now in
        let marked = record s { pressure_started = some started } in
        if leb l.slow_timeout (now - started)
        then close_slow_client marked
        else record marked { timer = true }

  -- The loop of `#pump` over the queue.
  unfoldable pub pump_loop : List QueuedMessage → Flow → Flow
  pump_loop [] s = record s { queue = [] }
  pump_loop (item ∷ rest) s = elim (is_open s.conn && ltb (buffered s.conn) l.high_water) [
    | true ↦
        pump_loop rest (write_item item (record s { queued_bytes = s.queued_bytes - item.bytes }))
    | false ↦ record s { queue = item ∷ rest }
  ]

  unfoldable pub pump : ℕ → Flow → Flow
  pump now s = if s.disposed then s else update_pressure now (pump_loop s.queue s)

  -- The loop of `#discardDroppableUntil` from an index on: the items kept, and the bytes queued.
  unfoldable pub discard_droppable : ℕ → List QueuedMessage → ℕ → List QueuedMessage × ℕ
  discard_droppable required [] queued = ([], queued)
  discard_droppable required (item ∷ rest) queued = elim (leb (queued + required) l.max_queue) [
    | true ↦ (item ∷ rest, queued)
    | false ↦ elim (droppable item) [
      | true ↦ discard_droppable required rest (queued - item.bytes)
      | false ↦ let (kept, left) = discard_droppable required rest queued in (item ∷ kept, left)
    ]
  ]

  -- `this.#queue.at(-1)`, with the items before it.
  unfoldable pub split_last : List QueuedMessage → Option (List QueuedMessage × QueuedMessage)
  split_last [] = none
  split_last (x ∷ xs) = elim (split_last xs) [
    | none ↦ some ([], x)
    | some (before, last) ↦ some (x ∷ before, last)
  ]

  abbrev pub enqueue : QueuedMessage → Flow → Flow
  enqueue item s = record s {
    queue = s.queue ++ (item ∷ []);
    queued_bytes = s.queued_bytes + item.bytes;
  }

  -- The branch that replaces the last queued item by the new one of the same key.
  unfoldable pub replace_last : QueuedMessage → List QueuedMessage → QueuedMessage → Flow → Flow
  replace_last item before previous s =
      let total = s.queued_bytes + item.bytes - previous.bytes in
      if ltb l.max_queue total
      then record s { queue = before; queued_bytes = total - item.bytes }
      else record s { queue = before ++ (item ∷ []); queued_bytes = total }

  -- From the test of the queue's limit on.
  unfoldable pub append_item : ℕ → QueuedMessage → Flow → Flow
  append_item now item s =
      if leb (s.queued_bytes + item.bytes) l.max_queue
      then pump now (update_pressure now (enqueue item s))
      else if droppable item
      then update_pressure now s
      else let (kept, left) = discard_droppable item.bytes s.queue s.queued_bytes in
        let s' = record s { queue = kept; queued_bytes = left } in
        if leb (s'.queued_bytes + item.bytes) l.max_queue
        then pump now (update_pressure now (enqueue item s'))
        else close_slow_client s'

  -- From the coalescing on, given the queue's last item.
  unfoldable pub queue_item :
      ℕ → QueuedMessage → Option (List QueuedMessage × QueuedMessage) → Flow → Flow
  queue_item now item none s = append_item now item s
  queue_item now item (some (before, previous)) s =
      if same_key (item_key previous) (item_key item)
      then update_pressure now (replace_last item before previous s)
      else append_item now item s

  unfoldable pub send_item : ℕ → QueuedMessage → Flow → Flow
  send_item now item s =
      if is_empty s.queue && ltb (buffered s.conn) l.high_water
      then update_pressure now (write_item item s)
      else queue_item now item (split_last s.queue) s

  unfoldable pub send : ℕ → ServerMessage → Flow → Flow
  send now message s =
      if s.disposed || not (is_open s.conn) then s else elim (encoded_bytes message) [
        | none ↦ s
        | some n ↦ send_item now (record { message = message; bytes = n }) s
      ]

  -- What can happen to a controller: a message to send, a send callback, the poll timer, `dispose`,
  -- and a change of the socket on its own.
  pub data Event : Type 0 where
    sends : ServerMessage → Event
    flushed : Event
    timer_fires : Event
    disposes : Event
    socket : Conn → Event

  unfoldable pub step : Flow → ℕ × Event → Flow
  step s (now, sends message) = send now message s
  step s (now, flushed) = pump now s
  step s (now, timer_fires) = if s.timer then pump now (record s { timer = false }) else s
  step s (now, disposes) = dispose s
  step s (now, socket c) = record s { conn = c }

  unfoldable pub run : Flow → List (ℕ × Event) → Flow
  run s [] = s
  run s (e ∷ es) = run (step s e) es
