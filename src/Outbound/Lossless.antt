-- ===== src/Outbound/Lossless.antt =====
-- `send` from the test of the queue's limit on: the new message is added to what the controller has
-- to deliver, in each branch.
use mathlib.Core.Bool.{true≢false}
use mathlib.Core.List.Sublist
use mathlib.Core.List.{sublist-append_left}
use chatwca.Prelude.{
  [], arith, false, inl, inr, refl, subst, sym, true, ℕ, ◌++◌, ◌∙◌, ◌∷◌, ◌≡◌, ◌⊎◌,
}
use chatwca.Outbound.Messages.{QueuedMessage, droppable}
use chatwca.Outbound.Limits.{Limits}
use chatwca.Outbound.Sequence.{Items, Thins-append, Thins-refl}
use chatwca.Outbound.Order.{
  IsFaithful, Stops-Settles, enqueue-IsFaithful, pump-Settles, settled, update_pressure-Stops,
  close_slow_client-Stops, discard_droppable-Thins, skipped, thinned,
}
use chatwca.Outbound.Flow.{
  Platform, Flow, close_slow_client, update_pressure, discard_droppable, pump, append_item, enqueue,
}

module _ (p : Platform) (l : Limits) where
  abbrev pub discarded : ℕ → Flow p l → Flow p l
  discarded required s =
      let (kept, left) = discard_droppable p l required s.queue s.queued_bytes in
      record s { queue = kept; queued_bytes = left }

  module _ (now : ℕ) (xs : Items) (item : QueuedMessage) where
    abbrev pub more : Items
    more = xs ++ (item ∷ [])

    pub settle_pressure :
        (s : Flow p l) → IsFaithful p l more s → IsFaithful p l more (update_pressure p l now s)
    settle_pressure s v =
        let s' = update_pressure p l now s in
        settled p l more s s' (Stops-Settles p l s s' (update_pressure-Stops p l now s)) v

    settle_pump : (s : Flow p l) → IsFaithful p l more s → IsFaithful p l more (pump p l now s)
    settle_pump s v = settled p l more s (pump p l now s) (pump-Settles p l now s) v

    enqueued-IsFaithful :
        (s : Flow p l)
        → s.disposed ≡ false
        → IsFaithful p l xs s
        → IsFaithful p l more (pump p l now (update_pressure p l now (enqueue p l item s)))
    enqueued-IsFaithful s live v =
        let queued = enqueue p l item s in
        settle_pump (update_pressure p l now queued)
          (settle_pressure queued (enqueue-IsFaithful p l xs item s live v))

    abbrev pub on_time : Flow p l → Flow p l
    on_time s = pump p l now (update_pressure p l now (enqueue p l item s))

    pub append_item-cases :
        (s : Flow p l)
        → (append_item p l now item s ≡ on_time s)
          ⊎ (((droppable item ≡ true) × (append_item p l now item s ≡ update_pressure p l now s))
              ⊎ ((append_item p l now item s ≡ on_time (discarded item.bytes s))
                  ⊎ (append_item p l now item s ≡ close_slow_client p l (discarded item.bytes s))))
    unfolding append_item
    append_item-cases s = ground arith

    discarded-IsFaithful :
        (s : Flow p l) → IsFaithful p l xs s → IsFaithful p l xs (discarded item.bytes s)
    discarded-IsFaithful s v =
        let thin = discard_droppable-Thins p l item.bytes s.queue s.queued_bytes in
        thinned p l xs s (discarded item.bytes s) refl
          (Thins-append s.written s.written _ s.queue (Thins-refl s.written) thin) v

    close_slow_client-disposed : (s : Flow p l) → (close_slow_client p l s).disposed ≡ true
    unfolding close_slow_client
    close_slow_client-disposed s = ground arith

    closed-IsFaithful :
        (s : Flow p l) → IsFaithful p l xs s → IsFaithful p l more (close_slow_client p l s)
    closed-IsFaithful s v =
        let s' = close_slow_client p l s in
        let v' = settled p l xs s s' (Stops-Settles p l s s' (close_slow_client-Stops p l s)) v in
        record {
          ordered = Sublist.trans v'.ordered (sublist-append_left xs (item ∷ []));
          lossless = λ e. absurd (true≢false (sym (close_slow_client-disposed s) ∙ e));
        }

    pub append_item-IsFaithful :
        (s : Flow p l)
        → s.disposed ≡ false
        → IsFaithful p l xs s
        → IsFaithful p l more (append_item p l now item s)
    append_item-IsFaithful s live v = elim (append_item-cases s) [
      | inl fits ↦ subst (IsFaithful p l more) (sym fits) (enqueued-IsFaithful s live v)
      | inr (inl (d, skips)) ↦
          subst (IsFaithful p l more) (sym skips) (settle_pressure s (skipped p l xs item s d v))
      | inr (inr (inl freed)) ↦
          subst (IsFaithful p l more) (sym freed)
            (enqueued-IsFaithful (discarded item.bytes s) live (discarded-IsFaithful s v))
      | inr (inr (inr full)) ↦
          subst (IsFaithful p l more) (sym full)
            (closed-IsFaithful (discarded item.bytes s) (discarded-IsFaithful s v))
    ]
