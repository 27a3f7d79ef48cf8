-- ===== src/Outbound/Order.antt =====
-- What reaches the socket: in the order sent, and of the messages that are not droppable all of
-- them, until the controller is disposed.
use mathlib.Core.Bool.{true≢false}
use mathlib.Core.List.Sublist
use mathlib.Core.List.{Sublist, append_assoc, append-nil, sublist-append_left}
use chatwca.Prelude.{
  [], ap, arith, false, inl, inr, refl, subst, sym, true, ℕ, ◌++◌, ◌-◌, ◌∙◌, ◌∷◌, ◌≡◌, ◌⊎◌,
}
use chatwca.Outbound.Messages.{QueuedMessage, droppable}
use chatwca.Outbound.Limits.{Limits}
use chatwca.Outbound.Sequence.{
  Items, Sublist-clear, Thins, essential, essential-append, Thins-refl, Thins-drop, Thins-keep,
}
use chatwca.Outbound.Flow.{
  Platform, Flow, close_slow_client, dispose, update_pressure, discard_droppable, pump, pump_loop,
  enqueue,
}

module _ (p : Platform) (l : Limits) where
  -- What was handed to the socket, then what is still queued.
  abbrev pub stream : Flow p l → Items
  stream s = s.written ++ s.queue

  pub record IsFaithful (xs : Items) (s : Flow p l) : Type 0 where
    pub ordered : Sublist (stream s) xs
    pub lossless : s.disposed ≡ false → essential (stream s) ≡ essential xs

  pub thinned :
      (xs : Items) (s s' : Flow p l)
      → s'.disposed ≡ s.disposed
      → Thins (stream s') (stream s)
      → IsFaithful xs s
      → IsFaithful xs s'
  thinned xs s s' d t v = record {
    ordered = Sublist.trans t.within v.ordered;
    lossless = λ e. t.complete ∙ v.lossless (sym d ∙ e);
  }

  pub extended :
      (xs : Items) (item : QueuedMessage) (s s' : Flow p l)
      → s.disposed ≡ false
      → Thins (stream s') (stream s ++ (item ∷ []))
      → IsFaithful xs s
      → IsFaithful (xs ++ (item ∷ [])) s'
  extended xs item s s' live t v =
      let tail = Sublist.refl (item ∷ []) in
      record {
        ordered = Sublist.trans t.within (Sublist.append v.ordered tail);
        lossless = λ e.
            t.complete
            ∙ essential-append (stream s) (item ∷ [])
            ∙ ap (λ z. z ++ essential (item ∷ [])) (v.lossless live)
            ∙ sym (essential-append xs (item ∷ []));
      }

  -- An operation that sends nothing keeps the stream, or disposes the controller and drops an end
  -- of the stream.
  abbrev Settles : Flow p l → Flow p l → Type 0
  Settles s s' =
      ((stream s' ≡ stream s) × (s'.disposed ≡ s.disposed))
      ⊎ ((s'.disposed ≡ true)
          × (s'.queue ≡ [])
          × ((dropped : Items) × (s'.written ++ dropped ≡ stream s)))

  pub settled : (xs : Items) (s s' : Flow p l) → Settles s s' → IsFaithful xs s → IsFaithful xs s'
  settled xs s s' (inl (same, d)) v =
      thinned xs s s' d (subst (λ z. Thins z (stream s)) (sym same) (Thins-refl (stream s))) v
  settled xs s s' (inr (d, q, (dropped, cut))) v = record {
    ordered =
        subst (λ z. Sublist (s'.written ++ z) xs) (sym q)
          (Sublist-clear s'.written dropped xs (subst (λ z. Sublist z xs) (sym cut) v.ordered));
    lossless = λ e. absurd (true≢false (sym d ∙ e));
  }

  -- The same for an operation that writes nothing.
  abbrev Stops : Flow p l → Flow p l → Type 0
  Stops s s' =
      ((stream s' ≡ stream s) × (s'.disposed ≡ s.disposed))
      ⊎ ((s'.disposed ≡ true) × (s'.written ≡ s.written) × (s'.queue ≡ []))

  pub Stops-Settles : (s s' : Flow p l) → Stops s s' → Settles s s'
  Stops-Settles s s' (inl h) = inl h
  Stops-Settles s s' (inr (d, w, q)) = inr (d, q, (s.queue, ap (λ z. z ++ s.queue) w))

  pub dispose-Stops : (s : Flow p l) → Stops s (dispose p l s)
  unfolding dispose
  dispose-Stops s = ground arith

  pub close_slow_client-Stops : (s : Flow p l) → Stops s (close_slow_client p l s)
  unfolding close_slow_client
  close_slow_client-Stops s = ground arith

  pub update_pressure-Stops : (now : ℕ) (s : Flow p l) → Stops s (update_pressure p l now s)
  unfolding update_pressure
  update_pressure-Stops now s = ground arith

  pump_loop-stream :
      (q : Items) (s : Flow p l)
      → (stream (pump_loop p l q s) ≡ s.written ++ q) × ((pump_loop p l q s).disposed ≡ s.disposed)
  unfolding pump_loop
  pump_loop-stream [] s = (refl, refl)
  pump_loop-stream (item ∷ rest) s =
      let next = record s {
        conn = p.write item.message s.conn;
        queued_bytes = s.queued_bytes - item.bytes;
        written = s.written ++ (item ∷ []);
      } in
      ground (arith, pump_loop-stream rest next, append_assoc s.written (item ∷ []) rest)

  pumped-Settles :
      (s s' s'' : Flow p l)
      → (stream s' ≡ stream s) × (s'.disposed ≡ s.disposed)
      → Stops s' s''
      → Settles s s''
  pumped-Settles s s' s'' (same, d) (inl (same', d')) = inl (same' ∙ same, d' ∙ d)
  pumped-Settles s s' s'' (same, d) (inr (d', w, q)) =
      inr (d', q, (s'.queue, ap (λ z. z ++ s'.queue) w ∙ same))

  pump-cases :
      (now : ℕ) (s : Flow p l)
      → (pump p l now s ≡ s) ⊎ (pump p l now s ≡ update_pressure p l now (pump_loop p l s.queue s))
  unfolding pump
  pump-cases now s = ground arith

  pub pump-Settles : (now : ℕ) (s : Flow p l) → Settles s (pump p l now s)
  pump-Settles now s = elim (pump-cases now s) [
    | inl idle ↦ subst (Settles s) (sym idle) (inl (refl, refl))
    | inr pumped ↦ subst (Settles s) (sym pumped) (
        pumped-Settles s (pump_loop p l s.queue s)
          (update_pressure p l now (pump_loop p l s.queue s)) (pump_loop-stream s.queue s)
          (update_pressure-Stops now (pump_loop p l s.queue s)))
  ]

  discard_droppable-step :
      (required : ℕ) (item : QueuedMessage) (rest : Items) (queued : ℕ)
      → let kept = (discard_droppable p l required (item ∷ rest) queued).0 in
        (kept ≡ item ∷ rest)
        ⊎ (((droppable item ≡ true)
              × (kept ≡ (discard_droppable p l required rest (queued - item.bytes)).0))
            ⊎ (kept ≡ item ∷ (discard_droppable p l required rest queued).0))
  unfolding discard_droppable
  discard_droppable-step required item rest queued = ground arith

  pub discard_droppable-Thins :
      (required : ℕ) (q : Items) (queued : ℕ) → Thins (discard_droppable p l required q queued).0 q
  unfolding discard_droppable
  discard_droppable-Thins required [] queued = Thins-refl []
  discard_droppable-Thins required (item ∷ rest) queued =
      elim (discard_droppable-step required item rest queued) [
        | inl all_kept ↦ subst (λ z. Thins z (item ∷ rest)) (sym all_kept) (Thins-refl _)
        | inr (inl (d, dropped)) ↦
            subst (λ z. Thins z (item ∷ rest)) (sym dropped)
              (Thins-drop item _ rest d (discard_droppable-Thins required rest _))
        | inr (inr kept) ↦
            subst (λ z. Thins z (item ∷ rest)) (sym kept)
              (Thins-keep item _ rest (discard_droppable-Thins required rest queued))
      ]

  pub enqueue-IsFaithful :
      (xs : Items) (item : QueuedMessage) (s : Flow p l)
      → s.disposed ≡ false
      → IsFaithful xs s
      → IsFaithful (xs ++ (item ∷ [])) (enqueue p l item s)
  enqueue-IsFaithful xs item s live v =
      extended xs item s (enqueue p l item s) live
        (subst (λ z. Thins z (stream s ++ (item ∷ []))) (append_assoc s.written s.queue (item ∷ []))
          (Thins-refl _))
        v

  -- A message that may be dropped is not added to what must be kept.
  pub skipped :
      (xs : Items) (item : QueuedMessage) (s : Flow p l)
      → droppable item ≡ true
      → IsFaithful xs s
      → IsFaithful (xs ++ (item ∷ [])) s
  skipped xs item s d v = record {
    ordered = Sublist.trans v.ordered (sublist-append_left xs (item ∷ []));
    lossless = λ e.
        v.lossless e ∙ ground (arith, essential-append xs (item ∷ []), append-nil (essential xs));
  }
