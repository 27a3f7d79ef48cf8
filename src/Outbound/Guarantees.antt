-- ===== src/Outbound/Guarantees.antt =====
-- What reaches the socket, for any sequence of events: it is in the order sent, and of the messages
-- that are not droppable it has all of them, until the controller is disposed.
use chatwca.Prelude.{
  Bool-cases, List, Option-cases, [], ap, arith, false, if◌then◌else◌, inl, inr, none, not, refl,
  some, subst, sym, ℕ, ◌++◌, ◌||◌, ◌∷◌, ◌≡◌, ◌⊎◌,
}
use chatwca.Outbound.Delivery.{send_item-IsFaithful}
use mathlib.Core.List.Sublist
use mathlib.Core.List.{Sublist, append_assoc, append-nil, sublist-append_left}
use chatwca.Outbound.Messages.{QueuedMessage, ServerMessage}
use chatwca.Outbound.Limits.{Limits}
use chatwca.Outbound.Sequence.{Items, essential}
use chatwca.Outbound.Order.{IsFaithful, Stops-Settles, pump-Settles, settled, dispose-Stops}
use chatwca.Outbound.Flow.{
  Platform, Flow, Event, dispose, initial, pump, disposes, flushed, run, send, send_item, sends,
  socket, step, timer_fires,
}

module _ (p : Platform) (l : Limits) where
  -- The specification: a message counts as sent where the controller is in use, the socket is open
  -- and the message can be encoded.
  abbrev pub accepted : Flow p l → ℕ × Event p l → Items
  accepted s (now, sends m) =
      if s.disposed || not (p.is_open s.conn)
      then []
      else elim (p.encoded_bytes m) [ none ↦ [] | some n ↦ record { message = m; bytes = n } ∷ [] ]
  accepted s (now, flushed) = []
  accepted s (now, timer_fires) = []
  accepted s (now, disposes) = []
  accepted s (now, socket c) = []

  abbrev pub all_accepted : Flow p l → List (ℕ × Event p l) → Items
  all_accepted s [] = []
  all_accepted s (e ∷ es) = accepted s e ++ all_accepted (step p l s e) es

  send-accepted :
      (now : ℕ) (m : ServerMessage) (s : Flow p l)
      → ((send p l now m s ≡ s) × (accepted s (now, sends m) ≡ []))
        ⊎ ((n : ℕ) × (s.disposed ≡ false)
            × (accepted s (now, sends m) ≡ record { message = m; bytes = n } ∷ [])
            × (send p l now m s ≡ send_item p l now (record { message = m; bytes = n }) s))
  unfolding send
  send-accepted now m s = elim (Bool-cases (s.disposed || not (p.is_open s.conn))) [
    | inl closed ↦ inl (ground arith)
    | inr live ↦ elim (Option-cases (p.encoded_bytes m)) [
      | inl bad ↦ inl (ground arith)
      | inr (n, good) ↦ inr (n, ground arith, ground arith, ground arith)
    ]
  ]

  send-IsFaithful :
      (now : ℕ) (xs : Items) (m : ServerMessage) (s : Flow p l)
      → IsFaithful p l xs s
      → IsFaithful p l (xs ++ accepted s (now, sends m)) (send p l now m s)
  send-IsFaithful now xs m s v = elim (send-accepted now m s) [
    | inl (same, unsent) ↦
        subst (λ z. IsFaithful p l z (send p l now m s)) (ap (◌++◌ xs) (sym unsent))
          (subst (IsFaithful p l (xs ++ [])) (sym same)
            (subst (λ z. IsFaithful p l z s) (sym (append-nil xs)) v))
    | inr (n, live, sent, by_item) ↦
        let item : QueuedMessage = record { message = m; bytes = n } in
        subst (λ z. IsFaithful p l z (send p l now m s)) (ap (◌++◌ xs) (sym sent))
          (subst (IsFaithful p l (xs ++ (item ∷ []))) (sym by_item)
            (send_item-IsFaithful p l now xs item s live v))
  ]

  quiet : (xs : Items) (s' : Flow p l) → IsFaithful p l xs s' → IsFaithful p l (xs ++ []) s'
  quiet xs s' v = subst (λ z. IsFaithful p l z s') (sym (append-nil xs)) v

  timer-IsFaithful :
      (now : ℕ) (xs : Items) (s : Flow p l)
      → IsFaithful p l xs s
      → IsFaithful p l xs (step p l s (now, timer_fires))
  unfolding step
  timer-IsFaithful now xs s v = elim (Bool-cases s.timer) [
    | inl set ↦
        let s' = record s { timer = false } in
        subst (IsFaithful p l xs) (ground arith) (
          settled p l xs s' (pump p l now s') (pump-Settles p l now s')
            (record { ordered = v.ordered; lossless = v.lossless }))
    | inr clear ↦ subst (IsFaithful p l xs) (ground arith) v
  ]

  step-IsFaithful :
      (xs : Items) (s : Flow p l) (e : ℕ × Event p l)
      → IsFaithful p l xs s
      → IsFaithful p l (xs ++ accepted s e) (step p l s e)
  unfolding step
  step-IsFaithful xs s (now, sends m) v = send-IsFaithful now xs m s v
  step-IsFaithful xs s (now, flushed) v =
      quiet xs _ (settled p l xs s (pump p l now s) (pump-Settles p l now s) v)
  step-IsFaithful xs s (now, timer_fires) v = quiet xs _ (timer-IsFaithful now xs s v)
  step-IsFaithful xs s (now, disposes) v =
      let s' = dispose p l s in
      quiet xs s' (settled p l xs s s' (Stops-Settles p l s s' (dispose-Stops p l s)) v)
  step-IsFaithful xs s (now, socket c) v =
      quiet xs _ (record { ordered = v.ordered; lossless = v.lossless })

  run-IsFaithful :
      (es : List (ℕ × Event p l)) (xs : Items) (s : Flow p l)
      → IsFaithful p l xs s
      → IsFaithful p l (xs ++ all_accepted s es) (run p l s es)
  unfolding run
  run-IsFaithful [] xs s v = quiet xs s v
  run-IsFaithful (e ∷ es) xs s v =
      subst (λ z. IsFaithful p l z (run p l (step p l s e) es))
        (append_assoc xs (accepted s e) (all_accepted (step p l s e) es))
        (run-IsFaithful es (xs ++ accepted s e) (step p l s e) (step-IsFaithful xs s e v))

  from_start :
      (c : p.Conn) (es : List (ℕ × Event p l))
      → IsFaithful p l (all_accepted (initial p l c) es) (run p l (initial p l c) es)
  unfolding initial
  from_start c es =
      run-IsFaithful es [] (initial p l c)
        (record { ordered = Sublist.refl []; lossless = λ e. refl })

  -- After any sequence of events, what was written to the socket is a subsequence of the messages
  -- that were sent while the controller was in use, the socket open and the message encodable.
  pub written-ordered :
      (c : p.Conn) (es : List (ℕ × Event p l))
      → Sublist (run p l (initial p l c) es).written (all_accepted (initial p l c) es)
  written-ordered c es =
      let s = run p l (initial p l c) es in
      Sublist.trans (sublist-append_left s.written s.queue) (from_start c es).ordered

  -- After any sequence of events that leaves the controller in use, the messages that are not
  -- droppable and were written or are still queued are, in order, exactly those that were sent
  -- while the socket was open and that could be encoded.
  pub essential-delivered :
      (c : p.Conn) (es : List (ℕ × Event p l))
      → (run p l (initial p l c) es).disposed ≡ false
      → let s = run p l (initial p l c) es in
        essential (s.written ++ s.queue) ≡ essential (all_accepted (initial p l c) es)
  essential-delivered c es live = (from_start c es).lossless live
