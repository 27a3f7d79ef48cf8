-- ===== src/Outbound/Delivery.antt =====
-- `send` up to the test of the queue's limit: the message that is written at once, and the one that
-- takes the place of the last in the queue.
use chatwca.Prelude.{
  Bool-cases, Option, [], arith, false, inl, inr, none, some, subst, sym, true, ℕ, ◌++◌, ◌∷◌, ◌≡◌,
  ◌⊎◌,
}
use chatwca.Outbound.Lossless.{settle_pressure, append_item-IsFaithful}
use mathlib.Core.List.{append_assoc, append-nil}
use chatwca.Outbound.Messages.{QueuedMessage, droppable, same_key, same_key-droppable, item_key}
use chatwca.Outbound.Limits.{Limits}
use chatwca.Outbound.Sequence.{
  Items, Thins-append, Thins-refl, Thins, Thins-end, Thins-last, Thins-trans,
}
use chatwca.Outbound.Order.{stream, IsFaithful, extended}
use chatwca.Outbound.Shape.{IsSplit, split_last-IsSplit}
use chatwca.Outbound.Flow.{
  Platform, Flow, update_pressure, split_last, queue_item, replace_last, send_item, write_item,
}

module _ (p : Platform) (l : Limits) where
  module _ (now : ℕ) (xs : Items) (item : QueuedMessage) where
    abbrev to_send : Items
    to_send = xs ++ (item ∷ [])

    replace_last-kept :
        (before : Items) (previous : QueuedMessage) (s : Flow p l)
        → let s' = replace_last p l item before previous s in
          ((s'.queue ≡ before) ⊎ (s'.queue ≡ before ++ (item ∷ [])))
          × (s'.written ≡ s.written)
          × (s'.disposed ≡ s.disposed)
    unfolding replace_last
    replace_last-kept before previous s = ground arith

    replace_last-Thins :
        (before : Items) (previous : QueuedMessage) (s : Flow p l)
        → droppable previous ≡ true
        → droppable item ≡ true
        → Thins
            (replace_last p l item before previous s).queue
            (before ++ (previous ∷ []) ++ (item ∷ []))
    replace_last-Thins before previous s d d' =
        let whole = before ++ (previous ∷ []) in
        elim (replace_last-kept before previous s).0 [
          | inl popped ↦
              subst (λ z. Thins z (whole ++ (item ∷ []))) (sym popped)
                (Thins-trans before whole _ (Thins-end before previous d) (Thins-end whole item d'))
          | inr replaced ↦
              subst (λ z. Thins z (whole ++ (item ∷ []))) (sym replaced)
                (Thins-last before previous item d)
        ]

    replace_last-IsFaithful :
        (before : Items) (previous : QueuedMessage) (s : Flow p l)
        → s.queue ≡ before ++ (previous ∷ [])
        → same_key (item_key previous) (item_key item) ≡ true
        → s.disposed ≡ false
        → IsFaithful p l xs s
        → IsFaithful p l to_send (replace_last p l item before previous s)
    replace_last-IsFaithful before previous s e k live v =
        let s' = replace_last p l item before previous s in
        let (d, d') = same_key-droppable previous item k in
        let (_, w, same) = replace_last-kept before previous s in
        let thin =
          subst (λ z. Thins s'.queue (z ++ (item ∷ []))) (sym e)
            (replace_last-Thins before previous s d d') in
        let whole =
          subst (λ z. Thins (z ++ s'.queue) (s.written ++ (s.queue ++ (item ∷ [])))) (sym w)
            (Thins-append s.written s.written s'.queue _ (Thins-refl s.written) thin) in
        extended p l xs item s s' live
          (subst (Thins (stream p l s')) (sym (append_assoc s.written s.queue (item ∷ []))) whole) v

    queue_item-IsFaithful :
        (r : Option (Items × QueuedMessage)) (s : Flow p l)
        → IsSplit s.queue r
        → s.disposed ≡ false
        → IsFaithful p l xs s
        → IsFaithful p l to_send (queue_item p l now item r s)
    unfolding queue_item
    queue_item-IsFaithful none s e live v = append_item-IsFaithful p l now xs item s live v
    queue_item-IsFaithful (some (before, previous)) s e live v =
        elim (Bool-cases (same_key (item_key previous) (item_key item))) [
          | inl k ↦ subst (IsFaithful p l to_send) (ground arith) (
              settle_pressure p l now xs item (replace_last p l item before previous s)
                (replace_last-IsFaithful before previous s e k live v))
          | inr k ↦
              subst (IsFaithful p l to_send) (ground arith)
                (append_item-IsFaithful p l now xs item s live v)
        ]

    write_item-IsFaithful :
        (s : Flow p l)
        → s.queue ≡ []
        → s.disposed ≡ false
        → IsFaithful p l xs s
        → IsFaithful p l to_send (write_item p l item s)
    write_item-IsFaithful s e live v =
        let s' = write_item p l item s in
        extended p l xs item s s' live
          (subst (Thins (stream p l s'))
            (ground (arith, append-nil s.written, append-nil (s.written ++ (item ∷ []))))
            (Thins-refl (stream p l s')))
          v

    send_item-cases :
        (s : Flow p l)
        → ((send_item p l now item s ≡ update_pressure p l now (write_item p l item s))
            × (s.queue ≡ []))
          ⊎ (send_item p l now item s ≡ queue_item p l now item (split_last p l s.queue) s)
    unfolding send_item
    send_item-cases s = ground arith

    pub send_item-IsFaithful :
        (s : Flow p l)
        → s.disposed ≡ false
        → IsFaithful p l xs s
        → IsFaithful p l to_send (send_item p l now item s)
    send_item-IsFaithful s live v = elim (send_item-cases s) [
      | inl (direct, e) ↦ subst (IsFaithful p l to_send) (sym direct) (
          settle_pressure p l now xs item (write_item p l item s)
            (write_item-IsFaithful s e live v))
      | inr queued ↦
          subst (IsFaithful p l to_send) (sym queued) (
            queue_item-IsFaithful (split_last p l s.queue) s (split_last-IsSplit p l s.queue) live
              v)
    ]
