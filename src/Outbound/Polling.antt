-- ===== src/Outbound/Polling.antt =====
-- The poll timer: a controller in use that still holds messages has its timer set and knows since
-- when the client is slow; a client slow for `slowClientTimeoutMs` is disconnected.
use chatwca.Prelude.{
  List, Option, [], arith, false, inl, inr, none, refl, some, subst, sym, true, ℕ, ◌++◌, ◌-◌, ◌∷◌,
  ◌≡◌, ◌≢◌, ◌≤◌,
}
use chatwca.Outbound.Messages.{QueuedMessage, ServerMessage}
use mathlib.Core.Bool.{true≢false}
use chatwca.Outbound.Limits.{Limits}
use chatwca.Outbound.Shape.{send-cases}
use chatwca.Outbound.Lossless.{append_item-cases, on_time, discarded}
use chatwca.Outbound.Flow.{
  Platform, Flow, Event, close_slow_client, dispose, initial, update_pressure, pump, pump_loop,
  append_item, enqueue, split_last, disposes, flushed, queue_item, replace_last, run, send,
  send_item, sends, socket, step, timer_fires, write_item,
}

module _ (p : Platform) (l : Limits) where
  pub record IsPolled (s : Flow p l) : Type 0 where
    pub armed : s.disposed ≡ false → s.queue ≢ [] → s.timer ≡ true
    pub timed : s.timer ≡ true → s.pressure_started ≢ none
    pub disarmed : s.disposed ≡ true → s.timer ≡ false

  initial-IsPolled : (c : p.Conn) → IsPolled (initial p l c)
  unfolding initial
  initial-IsPolled c = ground arith

  update_pressure-IsPolled :
      (now : ℕ) (s : Flow p l)
      → (s.disposed ≡ true → s.timer ≡ false)
      → (s.timer ≡ true → s.pressure_started ≢ none)
      → IsPolled (update_pressure p l now s)
  unfolding update_pressure
  update_pressure-IsPolled now s h t = ground arith

  abbrev Rests : Flow p l → Type 0
  Rests s = (s.disposed ≡ true → s.timer ≡ false) × (s.timer ≡ true → s.pressure_started ≢ none)

  pump_loop-timer :
      (q : List QueuedMessage) (s : Flow p l)
      → let s' = pump_loop p l q s in
        (s'.timer ≡ s.timer)
        × (s'.pressure_started ≡ s.pressure_started)
        × (s'.disposed ≡ s.disposed)
  unfolding pump_loop
  pump_loop-timer [] s = (refl, refl, refl)
  pump_loop-timer (item ∷ rest) s =
      let next = record s {
        conn = p.write item.message s.conn;
        queued_bytes = s.queued_bytes - item.bytes;
        written = s.written ++ (item ∷ []);
      } in
      ground (arith, pump_loop-timer rest next)

  dispose-IsPolled : (s : Flow p l) → IsPolled s → IsPolled (dispose p l s)
  unfolding dispose
  dispose-IsPolled s v = ground (arith, v.disarmed, v.timed, v.armed)

  close_slow_client-IsPolled : (s : Flow p l) → Rests s → IsPolled (close_slow_client p l s)
  unfolding close_slow_client
  close_slow_client-IsPolled s v = ground arith

  -- The timer that fired is clear before the pump runs.
  pump-IsPolled :
      (now : ℕ) (s : Flow p l)
      → Rests s
      → (s.disposed ≡ true → IsPolled s)
      → IsPolled (pump p l now s)
  unfolding pump
  pump-IsPolled now s (d, t) v =
      ground (
        arith,
        v,
        pump_loop-timer s.queue s,
        update_pressure-IsPolled now (pump_loop p l s.queue s),
      )

  closed-IsPolled :
      (s : Flow p l)
      → IsPolled s
      → (required : ℕ) → IsPolled (close_slow_client p l (discarded p l required s))
  closed-IsPolled s v required =
      close_slow_client-IsPolled (discarded p l required s) (v.disarmed, v.timed)

  on_time-IsPolled :
      (now : ℕ) (item : QueuedMessage) (s : Flow p l)
      → Rests s
      → IsPolled (on_time p l now [] item s)
  on_time-IsPolled now item s (d, t) =
      let s' = update_pressure p l now (enqueue p l item s) in
      let v' = update_pressure-IsPolled now (enqueue p l item s) d t in
      pump-IsPolled now s' (v'.disarmed, v'.timed) (λ e. v')

  append_item-IsPolled :
      (now : ℕ) (item : QueuedMessage) (s : Flow p l)
      → IsPolled s
      → IsPolled (append_item p l now item s)
  append_item-IsPolled now item s v = elim (append_item-cases p l now [] item s) [
    | inl fits ↦ subst IsPolled (sym fits) (on_time-IsPolled now item s (v.disarmed, v.timed))
    | inr (inl (d, skips)) ↦
        subst IsPolled (sym skips) (update_pressure-IsPolled now s v.disarmed v.timed)
    | inr (inr (inl freed)) ↦
        subst IsPolled (sym freed)
          (on_time-IsPolled now item (discarded p l item.bytes s) (v.disarmed, v.timed))
    | inr (inr (inr full)) ↦ subst IsPolled (sym full) (closed-IsPolled s v item.bytes)
  ]

  replace_last-timer :
      (item : QueuedMessage) (before : List QueuedMessage) (previous : QueuedMessage) (s : Flow p l)
      → let s' = replace_last p l item before previous s in
        (s'.timer ≡ s.timer)
        × (s'.pressure_started ≡ s.pressure_started)
        × (s'.disposed ≡ s.disposed)
  unfolding replace_last
  replace_last-timer item before previous s = ground arith

  queue_item-IsPolled :
      (now : ℕ) (item : QueuedMessage) (r : Option (List QueuedMessage × QueuedMessage))
      (s : Flow p l)
      → IsPolled s
      → IsPolled (queue_item p l now item r s)
  unfolding queue_item
  queue_item-IsPolled now item none s v = append_item-IsPolled now item s v
  queue_item-IsPolled now item (some (before, previous)) s v = ground (
    arith,
    v.disarmed,
    v.timed,
    append_item-IsPolled now item s v,
    replace_last-timer item before previous s,
    update_pressure-IsPolled now (replace_last p l item before previous s),
  )

  send_item-IsPolled :
      (now : ℕ) (item : QueuedMessage) (s : Flow p l)
      → IsPolled s
      → IsPolled (send_item p l now item s)
  unfolding send_item
  send_item-IsPolled now item s v = ground (
    arith,
    queue_item-IsPolled now item (split_last p l s.queue) s v,
    update_pressure-IsPolled now (write_item p l item s) v.disarmed v.timed,
  )

  send-IsPolled :
      (now : ℕ) (m : ServerMessage) (s : Flow p l) → IsPolled s → IsPolled (send p l now m s)
  send-IsPolled now m s v = elim (send-cases p l now m s) [
    | inl same ↦ subst IsPolled (sym same) v
    | inr (n, _, live, _, sent) ↦ subst IsPolled (sym sent) (send_item-IsPolled now _ s v)
  ]

  timer-IsPolled : (now : ℕ) (s : Flow p l) → IsPolled s → IsPolled (step p l s (now, timer_fires))
  unfolding step
  timer-IsPolled now s v = ground (
    arith,
    v,
    v.disarmed,
    pump-IsPolled now (record s { timer = false }) (λ e. refl, λ e. absurd (true≢false (sym e))),
  )

  step-IsPolled : (s : Flow p l) (e : ℕ × Event p l) → IsPolled s → IsPolled (step p l s e)
  unfolding step
  step-IsPolled s (now, sends m) v = send-IsPolled now m s v
  step-IsPolled s (now, flushed) v = pump-IsPolled now s (v.disarmed, v.timed) (λ e. v)
  step-IsPolled s (now, timer_fires) v = timer-IsPolled now s v
  step-IsPolled s (now, disposes) v = dispose-IsPolled s v
  step-IsPolled s (now, socket c) v = record {
    armed = v.armed;
    timed = v.timed;
    disarmed = v.disarmed;
  }

  run-IsPolled : (es : List (ℕ × Event p l)) (s : Flow p l) → IsPolled s → IsPolled (run p l s es)
  unfolding run
  run-IsPolled [] s v = v
  run-IsPolled (e ∷ es) s v = run-IsPolled es (step p l s e) (step-IsPolled s e v)

  -- After any sequence of events: a controller in use that still holds messages has its poll timer
  -- set, one with the timer set knows when the client became slow, and a disposed one has no timer.
  pub run-initial-IsPolled :
      (c : p.Conn) (es : List (ℕ × Event p l)) → IsPolled (run p l (initial p l c) es)
  run-initial-IsPolled c es = run-IsPolled es (initial p l c) (initial-IsPolled c)

  pump_loop-blocked :
      (q : List QueuedMessage) (s : Flow p l)
      → l.high_water ≤ p.buffered s.conn
      → s.queue ≡ q
      → pump_loop p l q s ≡ s
  unfolding pump_loop
  pump_loop-blocked [] s h e = ground arith
  pump_loop-blocked (item ∷ rest) s h e = ground arith

  -- When the poll timer of a controller in use fires, the socket is open but still holds
  -- `highWaterBytes`, and the client has been slow for `slowClientTimeoutMs`, the controller closes
  -- the socket, is disposed and drops what it holds.
  pub slow_client-disposed :
      (now since : ℕ) (s : Flow p l)
      → s.timer ≡ true
      → s.disposed ≡ false
      → p.is_open s.conn ≡ true
      → l.high_water ≤ p.buffered s.conn
      → s.pressure_started ≡ some since
      → l.slow_timeout ≤ now - since
      → let s' = step p l s (now, timer_fires) in
        (s'.disposed ≡ true) × (s'.conn ≡ p.close s.conn) × (s'.queue ≡ [])
  unfolding step pump update_pressure close_slow_client dispose
  slow_client-disposed now since s set live open_ full pressured late =
      let s' = record s { timer = false } in
      let idle = pump_loop-blocked s.queue s' full refl in ground (arith, idle)
