-- ===== src/Registry/Counts.antt =====
-- src/server/conversation-registry.ts: reservations and records, counted.
use mathlib.Core.Option.{none-ne-some}
use chatwca.Prelude.{
  Bool, List, Option, [], ap, arith, elim_holds, false, get_elem?, keep, length, none, not, set_at,
  some, suc, true, zero, ℕ, ◌&&◌, ◌++◌, ◌+◌, ◌∷◌, ◌≡◌, ◌≤◌,
}
use chatwca.Registry.Records.{ConversationRecord, Records}
use chatwca.Registry.Capacity.{Reservation}

abbrev pub one_if : Bool → ℕ
one_if true = 1
one_if false = 0

abbrev pub count : (Reservation → Bool) → List Reservation → ℕ
count p [] = 0
count p (item ∷ items) = one_if (p item) + count p items

abbrev pub is_held : Reservation → Bool
is_held item = item.held

abbrev pub is_pending : Reservation → Bool
is_pending item = item.held && not item.registered

pub pending_among_held : (items : List Reservation) → count is_pending items ≤ count is_held items
pending_among_held [] = omega arith
pending_among_held (item ∷ items) = ground (arith, pending_among_held items)

pub count-append :
    (p : Reservation → Bool) (items more : List Reservation)
    → count p (items ++ more) ≡ count p items + count p more
count-append p [] more = omega arith
count-append p (item ∷ items) more = omega (arith, count-append p items more)

same_first :
    (p : Reservation → Bool) (item old : Reservation)
    → some item ≡ some old
    → one_if (p item) ≡ one_if (p old)
same_first p item old e = ap (λ o. one_if (is_some_with p o)) e
  where
    is_some_with : (Reservation → Bool) → Option Reservation → Bool
    is_some_with q none = false
    is_some_with q (some x) = q x

pub count-set_at :
    (p : Reservation → Bool) (i : ℕ) (old new : Reservation) (items : List Reservation)
    → get_elem? items i ≡ some old
    → count p (set_at i new items) + one_if (p old) ≡ count p items + one_if (p new)
count-set_at p i old new [] e = absurd (none-ne-some old e)
count-set_at p zero old new (item ∷ items) e = omega (arith, same_first p item old e)
count-set_at p (suc i) old new (item ∷ items) e = omega (arith, count-set_at p i old new items e)

pub length-keep : (p : ConversationRecord → Bool) (xs : Records) → length (keep p xs) ≤ length xs
length-keep p [] = omega arith
length-keep p (x ∷ xs) =
    elim_holds (λ (ys : Records). length ys ≤ suc (length xs)) (p x)
      (λ _. omega (arith, length-keep p xs)) (λ _. omega (arith, length-keep p xs))

-- An element that fails the test is left out, and one less stays.
pub length-keep_less :
    (p : ConversationRecord → Bool) (xs : Records) (k : ℕ) (item : ConversationRecord)
    → get_elem? xs k ≡ some item
    → p item ≡ false
    → suc (length (keep p xs)) ≤ length xs
length-keep_less p [] k item e out = absurd (none-ne-some item e)
length-keep_less p (x ∷ xs) zero item e out =
    elim_holds (λ (ys : Records). suc (length ys) ≤ suc (length xs)) (p x)
      (λ stays. absurd (clash p x item e stays out)) (λ _. omega (arith, length-keep p xs))
  where
    passes : (ConversationRecord → Bool) → Option ConversationRecord → Bool
    passes q none = false
    passes q (some y) = q y

    clash :
        (q : ConversationRecord → Bool) (y z : ConversationRecord)
        → some y ≡ some z
        → q y ≡ true
        → q z ≡ false
        → ⊥
    clash q y z same stays gone = ground (arith, ap (passes q) same, stays, gone)
length-keep_less p (x ∷ xs) (suc k) item e out =
    elim_holds (λ (ys : Records). suc (length ys) ≤ suc (length xs)) (p x)
      (λ _. omega (arith, length-keep_less p xs k item e out))
      (λ _. omega (arith, length-keep_less p xs k item e out))
