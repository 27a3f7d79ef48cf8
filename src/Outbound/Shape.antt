-- ===== src/Outbound/Shape.antt =====
-- What the parts of `send` are given: the queue apart from its last item, and the message encoded.
use chatwca.Prelude.{
  Bool-cases, List, Option, Option-cases, [], ap, arith, false, inl, inr, none, not, refl, some,
  true, ℕ, ◌++◌, ◌||◌, ◌∷◌, ◌≡◌, ◌⊎◌,
}
use chatwca.Outbound.Messages.{QueuedMessage, ServerMessage}
use chatwca.Outbound.Limits.{Limits}
use chatwca.Outbound.Flow.{Platform, Flow, send, send_item, split_last}

abbrev pub IsSplit : List QueuedMessage → Option (List QueuedMessage × QueuedMessage) → Type 0
IsSplit q none = q ≡ []
IsSplit q (some (before, last)) = q ≡ before ++ (last ∷ [])

module _ (p : Platform) (l : Limits) where
  IsSplit-cons :
      (x : QueuedMessage) (xs : List QueuedMessage)
      (r : Option (List QueuedMessage × QueuedMessage))
      → IsSplit xs r
      → IsSplit
          (x ∷ xs)
          (elim r [ none ↦ some ([], x) | some (before, last) ↦ some (x ∷ before, last) ])
  IsSplit-cons x xs none h = ap (◌∷◌ x) h
  IsSplit-cons x xs (some (before, last)) h = ap (◌∷◌ x) h

  pub split_last-IsSplit : (q : List QueuedMessage) → IsSplit q (split_last p l q)
  unfolding split_last
  split_last-IsSplit [] = refl
  split_last-IsSplit (x ∷ xs) = IsSplit-cons x xs (split_last p l xs) (split_last-IsSplit xs)

  pub send-cases :
      (now : ℕ) (m : ServerMessage) (s : Flow p l)
      → (send p l now m s ≡ s)
        ⊎ ((n : ℕ) × (p.encoded_bytes m ≡ some n)
            × (s.disposed ≡ false)
            × (p.is_open s.conn ≡ true)
            × (send p l now m s ≡ send_item p l now (record { message = m; bytes = n }) s))
  unfolding send
  send-cases now m s = elim (Bool-cases (s.disposed || not (p.is_open s.conn))) [
    | inl closed ↦ inl (ground arith)
    | inr live ↦ elim (Option-cases (p.encoded_bytes m)) [
      | inl bad ↦ inl (ground arith)
      | inr (n, good) ↦ inr (n, good, ground arith, ground arith, ground arith)
    ]
  ]
