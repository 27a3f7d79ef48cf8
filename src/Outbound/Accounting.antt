-- ===== src/Outbound/Accounting.antt =====
-- The application's memory for one client: `queuedBytes` is the size of the queue, and never above
-- `maxQueueBytes`.
use mathlib.Core.Bool.{true≢false}
use chatwca.Prelude.{
  List, Option, [], ap, arith, false, inl, inr, none, refl, some, subst, sym, true, ℕ, ◌++◌, ◌+◌,
  ◌-◌, ◌∙◌, ◌∷◌, ◌≡◌, ◌≤◌,
}
use chatwca.Outbound.Messages.{QueuedMessage, ServerMessage}
use chatwca.Outbound.Limits.{Limits}
use chatwca.Outbound.Shape.{IsSplit, split_last-IsSplit, send-cases}
use chatwca.Outbound.Flow.{
  Platform, Flow, Event, close_slow_client, dispose, initial, update_pressure, discard_droppable,
  pump, pump_loop, append_item, enqueue, split_last, disposes, flushed, queue_item, replace_last,
  run, send, send_item, sends, socket, step, timer_fires, write_item,
}

abbrev pub total_bytes : List QueuedMessage → ℕ
total_bytes [] = 0
total_bytes (item ∷ rest) = item.bytes + total_bytes rest

pub total_bytes-append :
    (xs ys : List QueuedMessage) → total_bytes (xs ++ ys) ≡ total_bytes xs + total_bytes ys
total_bytes-append [] ys = omega arith
total_bytes-append (x ∷ xs) ys = omega (arith, total_bytes-append xs ys)

module _ (p : Platform) (l : Limits) where
  pub record IsAccounted (s : Flow p l) : Type 0 where
    pub exact : s.queued_bytes ≡ total_bytes s.queue
    pub bounded : s.queued_bytes ≤ l.max_queue
    pub released : s.disposed ≡ true → s.queue ≡ []

  initial-IsAccounted : (c : p.Conn) → IsAccounted (initial p l c)
  unfolding initial
  initial-IsAccounted c = record { exact = refl; bounded = omega arith; released = λ e. refl }

  dispose-IsAccounted : (s : Flow p l) → IsAccounted s → IsAccounted (dispose p l s)
  unfolding dispose
  dispose-IsAccounted s v = ground (arith, v)

  close_slow_client-IsAccounted :
      (s : Flow p l) → IsAccounted s → IsAccounted (close_slow_client p l s)
  unfolding close_slow_client
  close_slow_client-IsAccounted s v = ground arith

  update_pressure-IsAccounted :
      (now : ℕ) (s : Flow p l) → IsAccounted s → IsAccounted (update_pressure p l now s)
  unfolding update_pressure
  update_pressure-IsAccounted now s v = ground arith

  -- The loop runs with the queue as its argument, on a controller that is not disposed.
  pump_loop-IsAccounted :
      (q : List QueuedMessage) (s : Flow p l)
      → s.queued_bytes ≡ total_bytes q
      → s.queued_bytes ≤ l.max_queue
      → s.disposed ≡ false
      → IsAccounted (pump_loop p l q s)
  unfolding pump_loop
  pump_loop-IsAccounted [] s e b d = record { exact = e; bounded = b; released = λ _. refl }
  pump_loop-IsAccounted (item ∷ rest) s e b d =
      let next = record s {
        conn = p.write item.message s.conn;
        queued_bytes = s.queued_bytes - item.bytes;
        written = s.written ++ (item ∷ []);
      } in
      ground (arith, pump_loop-IsAccounted rest next)

  pump-IsAccounted : (now : ℕ) (s : Flow p l) → IsAccounted s → IsAccounted (pump p l now s)
  unfolding pump
  pump-IsAccounted now s v = ground (
    arith,
    pump_loop-IsAccounted s.queue s v.exact v.bounded,
    update_pressure-IsAccounted now (pump_loop p l s.queue s),
  )

  -- `extra` are the bytes of the items passed over.
  discard_droppable-bytes :
      (required extra : ℕ) (q : List QueuedMessage) (queued : ℕ)
      → queued ≡ extra + total_bytes q
      → let (kept, left) = discard_droppable p l required q queued in
        (left ≡ extra + total_bytes kept) × (left ≤ queued)
  unfolding discard_droppable
  discard_droppable-bytes required extra [] queued e = (e, omega arith)
  discard_droppable-bytes required extra (item ∷ rest) queued e = ground (
    arith,
    discard_droppable-bytes required extra rest (queued - item.bytes),
    discard_droppable-bytes required (extra + item.bytes) rest queued,
  )

  enqueue-IsAccounted :
      (item : QueuedMessage) (s : Flow p l)
      → s.queued_bytes ≡ total_bytes s.queue
      → s.queued_bytes + item.bytes ≤ l.max_queue
      → s.disposed ≡ false
      → IsAccounted (enqueue p l item s)
  enqueue-IsAccounted item s e b d = record {
    exact = omega (arith, total_bytes-append s.queue (item ∷ []));
    bounded = b;
    released = λ t. absurd (true≢false (sym t ∙ d));
  }

  enqueued-IsAccounted :
      (now : ℕ) (item : QueuedMessage) (s : Flow p l)
      → s.queued_bytes ≡ total_bytes s.queue
      → s.queued_bytes + item.bytes ≤ l.max_queue
      → s.disposed ≡ false
      → IsAccounted (pump p l now (update_pressure p l now (enqueue p l item s)))
  enqueued-IsAccounted now item s e b d =
      pump-IsAccounted now _ (update_pressure-IsAccounted now _ (enqueue-IsAccounted item s e b d))

  append_item-IsAccounted :
      (now : ℕ) (item : QueuedMessage) (s : Flow p l)
      → s.disposed ≡ false
      → IsAccounted s
      → IsAccounted (append_item p l now item s)
  unfolding append_item
  append_item-IsAccounted now item s d v =
      let (kept, left) = discard_droppable p l item.bytes s.queue s.queued_bytes in
      let s' = record s { queue = kept; queued_bytes = left } in
      let after = discard_droppable-bytes item.bytes 0 s.queue s.queued_bytes (omega arith) in
      ground (
        arith,
        enqueued-IsAccounted now item s v.exact,
        update_pressure-IsAccounted now s v,
        enqueued-IsAccounted now item s',
        close_slow_client-IsAccounted s',
        after,
      )

  replace_last-IsAccounted :
      (item : QueuedMessage) (before : List QueuedMessage) (previous : QueuedMessage) (s : Flow p l)
      → s.queue ≡ before ++ (previous ∷ [])
      → s.disposed ≡ false
      → IsAccounted s
      → IsAccounted (replace_last p l item before previous s)
  unfolding replace_last
  replace_last-IsAccounted item before previous s e d v = ground (
    arith,
    total_bytes-append before (previous ∷ []),
    total_bytes-append before (item ∷ []),
    ap total_bytes e,
  )

  queue_item-IsAccounted :
      (now : ℕ) (item : QueuedMessage) (r : Option (List QueuedMessage × QueuedMessage))
      (s : Flow p l)
      → IsSplit s.queue r
      → s.disposed ≡ false
      → IsAccounted s
      → IsAccounted (queue_item p l now item r s)
  unfolding queue_item
  queue_item-IsAccounted now item none s e d v = append_item-IsAccounted now item s d v
  queue_item-IsAccounted now item (some (before, previous)) s e d v = ground (
    arith,
    append_item-IsAccounted now item s d v,
    update_pressure-IsAccounted now (replace_last p l item before previous s),
    replace_last-IsAccounted item before previous s e d v,
  )

  send_item-IsAccounted :
      (now : ℕ) (item : QueuedMessage) (s : Flow p l)
      → s.disposed ≡ false
      → IsAccounted s
      → IsAccounted (send_item p l now item s)
  unfolding send_item
  send_item-IsAccounted now item s d v = ground (
    arith,
    queue_item-IsAccounted now item (split_last p l s.queue) s (split_last-IsSplit p l s.queue) d v,
    update_pressure-IsAccounted now (write_item p l item s),
  )

  send-IsAccounted :
      (now : ℕ) (m : ServerMessage) (s : Flow p l) → IsAccounted s → IsAccounted (send p l now m s)
  unfolding send
  send-IsAccounted now m s v = elim (send-cases p l now m s) [
    | inl same ↦ subst IsAccounted (sym same) v
    | inr (n, _, live, _, sent) ↦
        subst IsAccounted (sym sent) (send_item-IsAccounted now _ s live v)
  ]

  step-IsAccounted : (s : Flow p l) (e : ℕ × Event p l) → IsAccounted s → IsAccounted (step p l s e)
  unfolding step
  step-IsAccounted s (now, sends m) v = send-IsAccounted now m s v
  step-IsAccounted s (now, flushed) v = pump-IsAccounted now s v
  step-IsAccounted s (now, timer_fires) v =
      ground (arith, pump-IsAccounted now (record s { timer = false }))
  step-IsAccounted s (now, disposes) v = dispose-IsAccounted s v
  step-IsAccounted s (now, socket c) v = ground (arith, v)

  pub run-IsAccounted :
      (es : List (ℕ × Event p l)) (s : Flow p l) → IsAccounted s → IsAccounted (run p l s es)
  unfolding run
  run-IsAccounted [] s v = v
  run-IsAccounted (e ∷ es) s v = run-IsAccounted es (step p l s e) (step-IsAccounted s e v)

  -- After any sequence of events the bytes counted are the bytes queued, they stay within
  -- `maxQueueBytes`, and a disposed controller holds nothing.
  pub run-initial-IsAccounted :
      (c : p.Conn) (es : List (ℕ × Event p l)) → IsAccounted (run p l (initial p l c) es)
  run-initial-IsAccounted c es = run-IsAccounted es _ (initial-IsAccounted c)
