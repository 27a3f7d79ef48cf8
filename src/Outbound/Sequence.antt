-- ===== src/Outbound/Sequence.antt =====
-- Sequences of messages: those that the controller must not lose, and a sequence that has lost only
-- the others.
use mathlib.Core.List.Sublist
use mathlib.Core.List.{Sublist, append_assoc, append-nil, sublist-append_left}
use chatwca.Prelude.{List, [], ap, arith, false, refl, subst, sym, true, ◌++◌, ◌∙◌, ◌∷◌, ◌≡◌}
use chatwca.Outbound.Messages.{QueuedMessage, droppable}

abbrev pub Items : Type 0
Items = List QueuedMessage

-- The items that are not droppable, in order.
abbrev pub essential : Items → Items
essential [] = []
essential (x ∷ xs) = elim (droppable x) [ true ↦ essential xs | false ↦ x ∷ essential xs ]

pub essential-append : (xs ys : Items) → essential (xs ++ ys) ≡ essential xs ++ essential ys
essential-append [] ys = refl
essential-append (x ∷ xs) ys = ground (arith, essential-append xs ys)

pub record Thins (xs ys : Items) : Type 0 where
  pub within : Sublist xs ys
  pub complete : essential xs ≡ essential ys

pub Thins-refl : (xs : Items) → Thins xs xs
Thins-refl xs = record { within = Sublist.refl xs; complete = refl }

pub Thins-append : (ws xs zs ys : Items) → Thins ws xs → Thins zs ys → Thins (ws ++ zs) (xs ++ ys)
Thins-append ws xs zs ys h k = record {
  within = Sublist.append h.within k.within;
  complete =
      essential-append ws zs
      ∙ ap (λ z. z ++ essential zs) h.complete
      ∙ ap (λ z. essential xs ++ z) k.complete
      ∙ sym (essential-append xs ys);
}

pub Thins-keep : (x : QueuedMessage) (xs ys : Items) → Thins xs ys → Thins (x ∷ xs) (x ∷ ys)
Thins-keep x xs ys h = Thins-append (x ∷ []) (x ∷ []) xs ys (Thins-refl (x ∷ [])) h

pub Thins-drop :
    (x : QueuedMessage) (xs ys : Items) → droppable x ≡ true → Thins xs ys → Thins xs (x ∷ ys)
Thins-drop x xs ys e h = record {
  within = Sublist.cons x h.within;
  complete = ground (arith, h.complete);
}

pub Thins-trans : (xs ys zs : Items) → Thins xs ys → Thins ys zs → Thins xs zs
Thins-trans xs ys zs h k = record {
  within = Sublist.trans h.within k.within;
  complete = h.complete ∙ k.complete;
}

pub Sublist-nil : (xs : Items) → Sublist [] xs
Sublist-nil xs = sublist-append_left [] xs

-- What is before a part that is cleared remains a subsequence.
pub Sublist-clear : (xs ys zs : Items) → Sublist (xs ++ ys) zs → Sublist (xs ++ []) zs
Sublist-clear xs ys zs h = Sublist.trans (Sublist.append (Sublist.refl xs) (Sublist-nil ys)) h

-- The last item gives way to a later one, or to none, where both may be dropped.
pub Thins-last :
    (before : Items) (previous item : QueuedMessage)
    → droppable previous ≡ true
    → Thins (before ++ (item ∷ [])) (before ++ (previous ∷ []) ++ (item ∷ []))
Thins-last before previous item d =
    subst (λ z. Thins (before ++ (item ∷ [])) z)
      (sym (append_assoc before (previous ∷ []) (item ∷ [])))
      (Thins-append before before (item ∷ []) (previous ∷ item ∷ []) (Thins-refl before)
        (Thins-drop previous _ _ d (Thins-refl (item ∷ []))))

pub Thins-end :
    (xs : Items) (item : QueuedMessage) → droppable item ≡ true → Thins xs (xs ++ (item ∷ []))
Thins-end xs item d =
    subst (λ z. Thins z (xs ++ (item ∷ []))) (append-nil xs)
      (Thins-append xs xs [] (item ∷ []) (Thins-refl xs) (Thins-drop item [] [] d (Thins-refl [])))
