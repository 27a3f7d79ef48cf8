-- ===== src/Registry/Bounds.antt =====
-- src/server/conversation-registry.ts: the live conversations stay within maxLiveConversations.
use chatwca.Prelude.{
  Bool, Option, [], any, ap, arith, false, get_elem?, if_holds, keep, leb, length, length-append,
  length-map, none, not, refl, set_at, some, subst, suc, true, ℕ, ◌&&◌, ◌++◌, ◌+◌, ◌-◌, ◌==◌, ◌∷◌,
  ◌≡◌, ◌≤◌,
}
use chatwca.Prelude.Text.{Text}
use chatwca.Registry.Records.{ConversationRecord, least_recently_used_idle}
use chatwca.Registry.Capacity.{
  Registry, Reservation, change_one, change_record, register, release_capacity, clashes,
  clashes_elsewhere, evict, finish_close, release_held, replace_identity, reserve_turn, start_close,
  create_registry,
}
use chatwca.Registry.Steps.{
  registered, Reachable, Step, TurnHolds, close_started, closed, eviction_started, fork_ended,
  fork_started, next, released, replaced, reserved, shut_down, start, status_changed, touched,
}
use chatwca.Registry.Counts.{
  count, count-append, count-set_at, is_held, is_pending, length-keep, length-keep_less, one_if,
  pending_among_held,
}

-- The reservations are counted, and there is room for the records and for the slots taken for
-- runtimes that are not registered yet.
pub record IsWithin (max_live : ℕ) (s : Registry) : Type 0 where
  pub counted : s.capacity_reservations ≡ count is_held s.reservations
  pub room : length s.records + count is_pending s.reservations ≤ max_live

change-IsWithin :
    (max_live : ℕ) (change : ConversationRecord → ConversationRecord) (r : ℕ) (s : Registry)
    → IsWithin max_live s
    → IsWithin max_live (change_record change r s)
change-IsWithin max_live change r s v = record {
  counted = v.counted;
  room = omega (arith, v.room, length-map (change_one change r) s.records);
}

one_if_pending :
    (item : Reservation) → item.held ≡ true → item.registered ≡ false → is_pending item ≡ true
one_if_pending item held new = ground (arith, held, new)

released-IsWithin :
    (max_live i : ℕ) (s : Registry) (o : Option Reservation)
    → get_elem? s.reservations i ≡ o
    → IsWithin max_live s
    → IsWithin max_live (release_held i o s)
released-IsWithin max_live i s none e v = v
released-IsWithin max_live i s (some item) e v =
    if_holds (IsWithin max_live) item.held
      (λ held.
        let free : Reservation = record item { held = false } in
        let less = count-set_at is_held i item free s.reservations e in
        let pending = count-set_at is_pending i item free s.reservations e in
        record {
          counted =
              one_less s.capacity_reservations (count is_held s.reservations)
                (count is_held (set_at i free s.reservations)) (one_if item.held) v.counted less
                (ap one_if held);
          room =
              less_room (length s.records) (count is_pending s.reservations)
                (count is_pending (set_at i free s.reservations)) (one_if (is_pending item))
                max_live pending v.room;
        })
      (λ _. v)
  where
    one_less : (r h h' o : ℕ) → r ≡ h → h' + o ≡ h + 0 → o ≡ 1 → r - 1 ≡ h'
    one_less r h h' o e f g = omega (arith, e, f, g)

    less_room : (n p p' o m : ℕ) → p' + o ≡ p + 0 → n + p ≤ m → n + p' ≤ m
    less_room n p p' o m e h = omega (arith, e, h)

release-IsWithin :
    (max_live i : ℕ) (s : Registry) → IsWithin max_live s → IsWithin max_live (release_capacity i s)
unfolding release_capacity
release-IsWithin max_live i s v = released-IsWithin max_live i s _ refl v

register-IsWithin :
    (max_live i : ℕ) (item : Reservation) (fresh : ConversationRecord) (s : Registry)
    → get_elem? s.reservations i ≡ some item
    → item.held ≡ true
    → item.registered ≡ false
    → IsWithin max_live s
    → IsWithin max_live (register i item fresh s)
unfolding register
register-IsWithin max_live i item fresh s e held new v =
    if_holds (IsWithin max_live) (any (clashes fresh.id fresh.session_file) s.records) (λ _. v)
      (λ _.
        let used : Reservation = record item { registered = true } in
        record {
          counted =
              same_held s.capacity_reservations (count is_held s.reservations)
                (count is_held (set_at i used s.reservations)) (one_if item.held) v.counted
                (count-set_at is_held i item used s.reservations e);
          room =
              moved (length s.records)
                (length (s.records ++ (record fresh { reference = s.created } ∷ [])))
                (count is_pending s.reservations) (count is_pending (set_at i used s.reservations))
                (one_if (is_pending item)) (one_if (is_pending used)) max_live
                (length-append s.records _) (count-set_at is_pending i item used s.reservations e)
                (ap one_if (one_if_pending item held new)) (no_more item) v.room;
        })
  where
    same_held : (r h h' o : ℕ) → r ≡ h → h' + o ≡ h + o → r ≡ h'
    same_held r h h' o e f = omega (arith, e, f)

    moved :
        (n n' p p' o o' m : ℕ)
        → n' ≡ n + 1
        → p' + o ≡ p + o'
        → o ≡ 1
        → o' ≡ 0
        → n + p ≤ m
        → n' + p' ≤ m
    moved n n' p p' o o' m e f g g' h = omega (arith, e, f, g, g', h)

    no_more : (r : Reservation) → one_if (r.held && false) ≡ 0
    no_more r = ground arith

closed-IsWithin :
    (max_live r : ℕ) (s : Registry) → IsWithin max_live s → IsWithin max_live (finish_close r s)
unfolding finish_close
closed-IsWithin max_live r s v = record {
  counted = v.counted;
  room =
      fewer (length s.records) _ (count is_pending s.reservations) max_live
        (length-keep (λ item. not (item.reference == r)) s.records) v.room;
}
  where
    fewer : (n n' p m : ℕ) → n' ≤ n → n + p ≤ m → n' + p ≤ m
    fewer n n' p m h k = omega (arith, h, k)

not_itself : (r : ℕ) → not (r == r) ≡ false
not_itself r = ground arith

replace-IsWithin :
    (max_live : ℕ) (id session_file : Text) (now k : ℕ) (item : ConversationRecord) (s : Registry)
    → get_elem? s.records k ≡ some item
    → IsWithin max_live s
    → IsWithin max_live (replace_identity id session_file now item s)
unfolding replace_identity
replace-IsWithin max_live id session_file now k item s found v =
    if_holds (IsWithin max_live) (any (clashes_elsewhere item.reference id session_file) s.records)
      (λ _. change-IsWithin max_live _ item.reference s v)
      (λ _. record {
        counted = v.counted;
        room =
            moved (length s.records) _ _ (count is_pending s.reservations) max_live
              (length-append
                (keep (λ (x : ConversationRecord). not (x.reference == item.reference)) s.records)
                _)
              (length-keep_less (λ x. not (x.reference == item.reference)) s.records k item found
                (not_itself item.reference))
              v.room;
      })
  where
    moved : (n n' kept p m : ℕ) → n' ≡ kept + 1 → suc kept ≤ n → n + p ≤ m → n' + p ≤ m
    moved n n' kept p m e h room = omega (arith, e, h, room)

turn-IsWithin :
    (precedes : Text → Text → Bool) (max_live : ℕ) (protected : Option ℕ) (s : Registry)
    → IsWithin max_live s
    → TurnHolds (IsWithin max_live) (reserve_turn precedes max_live protected s)
unfolding reserve_turn
turn-IsWithin precedes max_live protected s v =
    if_holds (TurnHolds (IsWithin max_live))
      (leb max_live (length s.records + s.capacity_reservations))
      (λ _. evict-holds (least_recently_used_idle precedes protected s.records))
      (λ room. record {
        counted =
            one_more s.capacity_reservations (count is_held s.reservations) _ v.counted
              (count-append is_held s.reservations _);
        room =
            fits (length s.records) s.capacity_reservations (count is_held s.reservations)
              (count is_pending s.reservations) _ max_live room v.counted
              (pending_among_held s.reservations) (count-append is_pending s.reservations _);
      })
  where
    evict-holds : (o : Option ConversationRecord) → TurnHolds (IsWithin max_live) (evict o s)
    evict-holds none = tt
    evict-holds (some item) = change-IsWithin max_live start_close item.reference s v

    one_more : (r h h' : ℕ) → r ≡ h → h' ≡ h + 1 → r + 1 ≡ h'
    one_more r h h' e f = omega (arith, e, f)

    fits : (n r h p p' m : ℕ) → leb m (n + r) ≡ false → r ≡ h → p ≤ h → p' ≡ p + 1 → n + p' ≤ m
    fits n r h p p' m room e le f = ground (arith, room, e, le, f)

first-IsWithin : (max_live : ℕ) → IsWithin max_live create_registry
unfolding create_registry
first-IsWithin max_live = record { counted = refl; room = omega arith }

Step-IsWithin :
    (precedes : Text → Text → Bool) (max_live : ℕ) (s s' : Registry)
    → IsWithin max_live s
    → Step precedes max_live s s'
    → IsWithin max_live s'
Step-IsWithin precedes max_live s s' v shut_down = record { counted = v.counted; room = v.room }
Step-IsWithin precedes max_live s s' v (reserved protected e) =
    subst (TurnHolds (IsWithin max_live)) e (turn-IsWithin precedes max_live protected s v)
Step-IsWithin precedes max_live s s' v (eviction_started protected r e) =
    subst (TurnHolds (IsWithin max_live)) e (turn-IsWithin precedes max_live protected s v)
Step-IsWithin precedes max_live s s' v (close_started r) = change-IsWithin max_live _ r s v
Step-IsWithin precedes max_live s s' v (touched now r) = change-IsWithin max_live _ r s v
Step-IsWithin precedes max_live s s' v (status_changed status is_streaming r) =
    change-IsWithin max_live _ r s v
Step-IsWithin precedes max_live s s' v (fork_started r) = change-IsWithin max_live _ r s v
Step-IsWithin precedes max_live s s' v (fork_ended r) = change-IsWithin max_live _ r s v
Step-IsWithin precedes max_live s s' v (closed r) = closed-IsWithin max_live r s v
Step-IsWithin precedes max_live s s' v (released i) = release-IsWithin max_live i s v
Step-IsWithin precedes max_live s s' v (registered i item fresh accepting found held new) =
    register-IsWithin max_live i item fresh s found held new v
Step-IsWithin precedes max_live s s' v (replaced id session_file now k item found) =
    replace-IsWithin max_live id session_file now k item s found v

-- In every state that the registry reaches, whatever the order of its steps, the count of
-- reservations is the number of those not released, and the live conversations together with the
-- slots that are held for runtimes not yet registered are at most maxLiveConversations.
pub Reachable-IsWithin :
    (precedes : Text → Text → Bool) (max_live : ℕ) (s : Registry)
    → Reachable precedes max_live s
    → IsWithin max_live s
Reachable-IsWithin precedes max_live s start = first-IsWithin max_live
Reachable-IsWithin precedes max_live s (next {s = before} reached step) =
    Step-IsWithin precedes max_live before s (Reachable-IsWithin precedes max_live before reached)
      step
