-- ===== src/Registry/Writers.antt =====
-- src/server/conversation-registry.ts: one record for each conversation and for each session file.
use mathlib.Core.Option.{none-ne-some, get_or}
use chatwca.Prelude.{
  All, Bool, Option, [], ap, arith, false, get_elem?, if_holds, leb, length, none, refl, some,
  subst, suc, true, zero, ℕ, ◌+◌, ◌<◌, ◌∷◌, ◌≡◌, ◌≢◌,
}
use chatwca.Prelude.Text.{Text, text_eq}
use chatwca.Prelude.Text.Equality.{text_eq_refl}
use chatwca.Registry.Records.{ConversationRecord, Records, least_recently_used_idle}
use chatwca.Registry.Capacity.{
  Registry, Reservation, create_registry, evict, finish_close, release_capacity, release_held,
  reserve_turn, start_close,
}
use chatwca.Registry.Steps.{
  Reachable, Step, TurnHolds, close_started, closed, eviction_started, fork_ended, fork_started,
  next, registered, released, replaced, reserved, shut_down, start, status_changed, touched,
}
use chatwca.Registry.Apart.{
  Apart, Apart-keep, KeepsKeys, Separate, changed-Apart, or_first, or_second, register-Apart,
  replace-Apart,
}

abbrev AreApart : Registry → Type 0
AreApart s = Apart s.records

keys_kept :
    (change : ConversationRecord → ConversationRecord)
    → ((x : ConversationRecord) → (change x).id ≡ x.id)
    → ((x : ConversationRecord) → (change x).session_file ≡ x.session_file)
    → KeepsKeys change
keys_kept change ids files = record { ids = ids; files = files }

turn-AreApart :
    (precedes : Text → Text → Bool) (max_live : ℕ) (protected : Option ℕ) (s : Registry)
    → AreApart s
    → TurnHolds AreApart (reserve_turn precedes max_live protected s)
unfolding reserve_turn
turn-AreApart precedes max_live protected s h =
    if_holds (TurnHolds AreApart) (leb max_live (length s.records + s.capacity_reservations))
      (λ _. evict-AreApart (least_recently_used_idle precedes protected s.records)) (λ _. h)
  where
    evict-AreApart : (o : Option ConversationRecord) → TurnHolds AreApart (evict o s)
    evict-AreApart none = tt
    evict-AreApart (some item) =
        changed-Apart start_close item.reference s (keys_kept start_close (λ x. refl) (λ x. refl)) h

released-AreApart :
    (i : ℕ) (o : Option Reservation) (s : Registry) → AreApart s → AreApart (release_held i o s)
released-AreApart i none s h = h
released-AreApart i (some item) s h = if_holds AreApart item.held (λ _. h) (λ _. h)

Step-AreApart :
    (precedes : Text → Text → Bool) (max_live : ℕ) (s s' : Registry)
    → AreApart s
    → Step precedes max_live s s'
    → AreApart s'
unfolding finish_close release_capacity
Step-AreApart precedes max_live s s' h shut_down = h
Step-AreApart precedes max_live s s' h (reserved protected e) =
    subst (TurnHolds AreApart) e (turn-AreApart precedes max_live protected s h)
Step-AreApart precedes max_live s s' h (eviction_started protected r e) =
    subst (TurnHolds AreApart) e (turn-AreApart precedes max_live protected s h)
Step-AreApart precedes max_live s s' h (close_started r) =
    changed-Apart _ r s (keys_kept _ (λ x. refl) (λ x. refl)) h
Step-AreApart precedes max_live s s' h (touched now r) =
    changed-Apart _ r s (keys_kept _ (λ x. refl) (λ x. refl)) h
Step-AreApart precedes max_live s s' h (status_changed status is_streaming r) =
    changed-Apart _ r s (keys_kept _ (λ x. refl) (λ x. refl)) h
Step-AreApart precedes max_live s s' h (fork_started r) =
    changed-Apart _ r s (keys_kept _ (λ x. refl) (λ x. refl)) h
Step-AreApart precedes max_live s s' h (fork_ended r) =
    changed-Apart _ r s (keys_kept _ (λ x. refl) (λ x. refl)) h
Step-AreApart precedes max_live s s' h (closed r) = Apart-keep _ s.records h
Step-AreApart precedes max_live s s' h (released i) =
    released-AreApart i (get_elem? s.reservations i) s h
Step-AreApart precedes max_live s s' h (registered i item fresh accepting found held new) =
    register-Apart i item fresh s h
Step-AreApart precedes max_live s s' h (replaced id session_file now k item found) =
    replace-Apart id session_file now item s h

Reachable-AreApart :
    (precedes : Text → Text → Bool) (max_live : ℕ) (s : Registry)
    → Reachable precedes max_live s
    → AreApart s
unfolding create_registry
Reachable-AreApart precedes max_live s start = tt
Reachable-AreApart precedes max_live s (next {s = before} reached step) =
    Step-AreApart precedes max_live before s (Reachable-AreApart precedes max_live before reached)
      step

differs : (a b : Text) → text_eq a b ≡ false → a ≢ b
differs a b h e = ground (arith, h, subst (λ t. text_eq a t ≡ true) e (text_eq_refl a))

same_record : (x y : ConversationRecord) → some x ≡ some y → x ≡ y
same_record x y e = ap (λ o. get_or o x) e

All-get :
    (P : ConversationRecord → Type 0) (xs : Records) (i : ℕ) (y : ConversationRecord)
    → All P xs
    → get_elem? xs i ≡ some y
    → P y
All-get P [] i y h e = absurd (none-ne-some y e)
All-get P (x ∷ xs) zero y (h, hs) e = subst P (same_record x y e) h
All-get P (x ∷ xs) (suc i) y (h, hs) e = All-get P xs i y hs e

Apart-get :
    (xs : Records) (i j : ℕ) (x y : ConversationRecord)
    → Apart xs
    → i < j
    → get_elem? xs i ≡ some x
    → get_elem? xs j ≡ some y
    → Separate y x
Apart-get [] i j x y h lt e f = absurd (none-ne-some x e)
Apart-get (z ∷ zs) i zero x y h lt e f = absurd (omega (arith, lt))
Apart-get (z ∷ zs) zero (suc j) x y (h, hs) lt e f =
    subst (λ w. Separate y w) (same_record z x e) (All-get (λ w. Separate w z) zs j y h f)
Apart-get (z ∷ zs) (suc i) (suc j) x y (h, hs) lt e f =
    Apart-get zs i j x y hs (omega (arith, lt)) e f

-- In every state that the registry reaches, two records at different places have different
-- conversation identifiers and different session files.
pub Reachable-one_writer :
    (precedes : Text → Text → Bool) (max_live : ℕ) (s : Registry) (i j : ℕ)
    (x y : ConversationRecord)
    → Reachable precedes max_live s
    → i < j
    → get_elem? s.records i ≡ some x
    → get_elem? s.records j ≡ some y
    → (x.id ≢ y.id) × (x.session_file ≢ y.session_file)
Reachable-one_writer precedes max_live s i j x y reached lt e f =
    let apart =
      Apart-get s.records i j x y (Reachable-AreApart precedes max_live s reached) lt e f in
    (
      differs x.id y.id (or_first _ _ apart),
      differs x.session_file y.session_file (or_second _ _ apart),
    )
