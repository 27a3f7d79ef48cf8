-- ===== src/Registry/Selection.antt =====
-- src/server/conversation-registry.ts, `#leastRecentlyUsedIdle`.
use mathlib.Core.Option.{none-ne-some, get_or}
use chatwca.Prelude.{
  All, Bool, Option, [], ap, arith, elim_holds, false, get_elem?, inl, inr, none, refl, some, subst,
  suc, sym, true, ℕ, ◌&&◌, ◌∷◌, ◌≡◌, ◌⊎◌,
}
use chatwca.Prelude.Text.{Text}
use chatwca.Registry.Records.{
  ConversationRecord, is_older, Records, is_better, is_evictable, least_recently_used_idle,
  select_from,
}

-- What is relied on of `localeCompare`: it is a strict order.
pub record IsStrictOrder (precedes : Text → Text → Bool) : Type 0 where
  pub irreflexive : (a : Text) → precedes a a ≡ false
  pub transitive : (a b c : Text) → precedes a b ≡ true → precedes b c ≡ true → precedes a c ≡ true

-- The choice of a record to evict.
abbrev pub IsChoice : (Text → Text → Bool) → Option ℕ → Records → Option ConversationRecord → Type 0
IsChoice precedes protected records none = All (λ y. is_evictable protected y ≡ false) records
IsChoice precedes protected records (some c) =
    (is_evictable protected c ≡ true)
    × ((k : ℕ) × (get_elem? records k ≡ some c))
    × All (λ y. is_evictable protected y ≡ true → is_older precedes y c ≡ false) records

module _ (precedes : Text → Text → Bool) (order : IsStrictOrder precedes) where
  is_older-irreflexive : (x : ConversationRecord) → is_older precedes x x ≡ false
  unfolding is_older
  is_older-irreflexive x = ground (arith, order.irreflexive x.id)

  is_older-transitive :
      (x y z : ConversationRecord)
      → is_older precedes x y ≡ true
      → is_older precedes y z ≡ true
      → is_older precedes x z ≡ true
  unfolding is_older
  is_older-transitive x y z h k = ground (arith, h, k, order.transitive x.id y.id z.id)

  -- A record has no claim against a candidate.
  abbrev Beaten : Option ℕ → Option ConversationRecord → ConversationRecord → Type 0
  Beaten protected none y = is_evictable protected y ≡ false
  Beaten protected (some c) y = is_evictable protected y ≡ true → is_older precedes y c ≡ false

  not_both : (b : Bool) → b ≡ true → b ≡ false → ⊥
  not_both b h k = ground (arith, h, k)

  false_unless : (b : Bool) → (b ≡ true → ⊥) → b ≡ false
  false_unless true h = absurd (h refl)
  false_unless false h = refl

  Beaten-better :
      (protected : Option ℕ) (o : Option ConversationRecord) (x y : ConversationRecord)
      → is_better precedes x o ≡ true
      → Beaten protected o y
      → Beaten protected (some x) y
  Beaten-better protected none x y better b e = absurd (not_both _ e b)
  Beaten-better protected (some c) x y better b e =
      false_unless _ (λ older. not_both _ (is_older-transitive y x c older better) (b e))

  Beaten-itself :
      (protected : Option ℕ) (o : Option ConversationRecord) (x : ConversationRecord)
      → (is_evictable protected x && is_better precedes x o) ≡ false
      → Beaten protected o x
  Beaten-itself protected none x h = ground (arith, h)
  Beaten-itself protected (some c) x h = λ e. unbeaten _ _ e h
    where
      unbeaten : (a b : Bool) → a ≡ true → (a && b) ≡ false → b ≡ false
      unbeaten a b e h = ground (arith, e, h)

  select_from-Beaten :
      (protected : Option ℕ) (o : Option ConversationRecord) (items : Records)
      (y : ConversationRecord)
      → Beaten protected o y
      → Beaten protected (select_from precedes protected o items) y
  unfolding select_from
  select_from-Beaten protected o [] y b = b
  select_from-Beaten protected o (x ∷ items) y b =
      elim_holds (λ r. Beaten protected r y) (is_evictable protected x && is_better precedes x o)
        (λ h.
          select_from-Beaten protected (some x) items y
            (Beaten-better protected o x y (and_right _ _ h) b))
        (λ _. select_from-Beaten protected o items y b)
    where
      and_right : (a b : Bool) → (a && b) ≡ true → b ≡ true
      and_right a b h = ground (arith, h)

  select_from-All :
      (protected : Option ℕ) (o : Option ConversationRecord) (items : Records)
      → All (Beaten protected (select_from precedes protected o items)) items
  unfolding select_from
  select_from-All protected o [] = tt
  select_from-All protected o (x ∷ items) =
      elim_holds (λ r. All (Beaten protected r) (x ∷ items))
        (is_evictable protected x && is_better precedes x o)
        (λ h. (
          select_from-Beaten protected (some x) items x (λ e. is_older-irreflexive x),
          select_from-All protected (some x) items,
        ))
        (λ h. (
          select_from-Beaten protected o items x (Beaten-itself protected o x h),
          select_from-All protected o items,
        ))

  -- Where a candidate comes from.
  abbrev From : Option ℕ → Option ConversationRecord → Records → Option ConversationRecord → Type 0
  From protected o items none = o ≡ none
  From protected o items (some c) =
      (o ≡ some c) ⊎ ((is_evictable protected c ≡ true) × (k : ℕ) × (get_elem? items k ≡ some c))

  From-later :
      (protected : Option ℕ) (o : Option ConversationRecord) (x : ConversationRecord)
      (items : Records) (r : Option ConversationRecord)
      → From protected o items r
      → From protected o (x ∷ items) r
  From-later protected o x items none f = f
  From-later protected o x items (some c) (inl e) = inl e
  From-later protected o x items (some c) (inr (e, k, found)) = inr (e, suc k, found)

  From-here :
      (protected : Option ℕ) (o : Option ConversationRecord) (x : ConversationRecord)
      (items : Records) (r : Option ConversationRecord)
      → is_evictable protected x ≡ true
      → From protected (some x) items r
      → From protected o (x ∷ items) r
  From-here protected o x items none e f = absurd (none-ne-some x (sym f))
  From-here protected o x items (some c) e (inl same) =
      inr (subst (λ z. is_evictable protected z ≡ true) (same_record same) e, 0, same)
    where
      same_record : {a b : ConversationRecord} → some a ≡ some b → a ≡ b
      same_record {a} e = ap (λ p. get_or p a) e
  From-here protected o x items (some c) e (inr (f, k, found)) = inr (f, suc k, found)

  select_from-From :
      (protected : Option ℕ) (o : Option ConversationRecord) (items : Records)
      → From protected o items (select_from precedes protected o items)
  unfolding select_from
  select_from-From protected none [] = refl
  select_from-From protected (some c) [] = inl refl
  select_from-From protected o (x ∷ items) =
      elim_holds (From protected o (x ∷ items)) (is_evictable protected x && is_better precedes x o)
        (λ h.
          From-here protected o x items _ (and_left _ _ h)
            (select_from-From protected (some x) items))
        (λ _. From-later protected o x items _ (select_from-From protected o items))
    where
      and_left : (a b : Bool) → (a && b) ≡ true → a ≡ true
      and_left a b h = ground (arith, h)

  choice :
      (protected : Option ℕ) (records : Records) (r : Option ConversationRecord)
      → From protected none records r
      → All (Beaten protected r) records
      → IsChoice precedes protected records r
  choice protected records none f b = b
  choice protected records (some c) (inl e) b = absurd (none-ne-some c e)
  choice protected records (some c) (inr (e, k, found)) b = (e, (k, found), b)

  -- Where localeCompare is a strict order: no record is chosen exactly where none may be evicted;
  -- otherwise the record chosen is one of the records, may be evicted (it is not the protected one,
  -- idle, not streaming, not closing and no source of a fork), and none that may be evicted is older.
  pub least_recently_used_idle-IsChoice :
      (protected : Option ℕ) (records : Records)
      → IsChoice precedes protected records (least_recently_used_idle precedes protected records)
  unfolding least_recently_used_idle
  least_recently_used_idle-IsChoice protected records =
      choice protected records _ (select_from-From protected none records)
        (select_from-All protected none records)
