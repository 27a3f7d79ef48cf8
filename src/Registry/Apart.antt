-- ===== src/Registry/Apart.antt =====
-- src/server/conversation-registry.ts: what keeps the identities and files of records apart.
use chatwca.Prelude.{
  All, All-append, Bool, [], any, ap, arith, elim_holds, false, if_holds, keep, map, not, refl,
  true, ℕ, ◌&&◌, ◌++◌, ◌==◌, ◌||◌, ◌∙◌, ◌∷◌, ◌≡◌,
}
use chatwca.Prelude.Text.{Text, text_eq}
use chatwca.Registry.Records.{ConversationRecord, Records}
use chatwca.Registry.Capacity.{
  Registry, Reservation, change_one, change_record, clashes, clashes_elsewhere, register,
  replace_identity,
}

pub or_first : (a b : Bool) → (a || b) ≡ false → a ≡ false
or_first a b h = ground (arith, h)

pub or_second : (a b : Bool) → (a || b) ≡ false → b ≡ false
or_second a b h = ground (arith, h)

and_second : (a b : Bool) → a ≡ true → (a && b) ≡ false → b ≡ false
and_second a b e h = ground (arith, e, h)

abbrev pub conflicts : ConversationRecord → ConversationRecord → Bool
conflicts y x = clashes y.id y.session_file x

abbrev pub Separate : ConversationRecord → ConversationRecord → Type 0
Separate y x = conflicts y x ≡ false

abbrev pub Apart : Records → Type 0
Apart [] = Unit
Apart (x ∷ xs) = All (λ y. Separate y x) xs × Apart xs

All-keep :
    (P : ConversationRecord → Type 0) (p : ConversationRecord → Bool) (xs : Records)
    → All P xs
    → All P (keep p xs)
All-keep P p [] h = tt
All-keep P p (x ∷ xs) (h, hs) =
    elim_holds (λ (ys : Records). All P ys) (p x) (λ _. (h, All-keep P p xs hs))
      (λ _. All-keep P p xs hs)

pub Apart-keep : (p : ConversationRecord → Bool) (xs : Records) → Apart xs → Apart (keep p xs)
Apart-keep p [] h = tt
Apart-keep p (x ∷ xs) (h, hs) =
    elim_holds (λ (ys : Records). Apart ys) (p x)
      (λ _. (All-keep (λ y. Separate y x) p xs h, Apart-keep p xs hs)) (λ _. Apart-keep p xs hs)

Apart-append :
    (y : ConversationRecord) (xs : Records)
    → Apart xs
    → All (λ x. Separate y x) xs
    → Apart (xs ++ (y ∷ []))
Apart-append y [] h new = (tt, tt)
Apart-append y (x ∷ xs) (h, hs) (n, ns) =
    (All-append (λ z. Separate z x) xs (y ∷ []) h (n, tt), Apart-append y xs hs ns)

-- A change that keeps the identity and the file.
pub record KeepsKeys (change : ConversationRecord → ConversationRecord) : Type 0 where
  pub ids : (x : ConversationRecord) → (change x).id ≡ x.id
  pub files : (x : ConversationRecord) → (change x).session_file ≡ x.session_file

All-map :
    (change : ConversationRecord → ConversationRecord)
    → KeepsKeys change
    → (x : ConversationRecord) (xs : Records) → All (λ y. Separate y x) xs
    → All (λ y. Separate y (change x)) (map change xs)
All-map change k x [] h = tt
All-map change k x (y ∷ ys) (h, hs) = (
  ap (λ t. text_eq t (change y).id || text_eq (change x).session_file (change y).session_file)
        (k.ids x)
      ∙ ap (λ t. text_eq x.id t || text_eq (change x).session_file (change y).session_file)
          (k.ids y)
      ∙ ap (λ t. text_eq x.id y.id || text_eq t (change y).session_file) (k.files x)
      ∙ ap (λ t. text_eq x.id y.id || text_eq x.session_file t) (k.files y)
      ∙ h,
  All-map change k x ys hs,
)

Apart-map :
    (change : ConversationRecord → ConversationRecord)
    → KeepsKeys change
    → (xs : Records) → Apart xs
    → Apart (map change xs)
Apart-map change k [] h = tt
Apart-map change k (x ∷ xs) (h, hs) = (All-map change k x xs h, Apart-map change k xs hs)

change_one-KeepsKeys :
    (change : ConversationRecord → ConversationRecord) (r : ℕ)
    → KeepsKeys change
    → KeepsKeys (change_one change r)
change_one-KeepsKeys change r k = record {
  ids = λ x.
      if_holds (λ (y : ConversationRecord). y.id ≡ x.id) (x.reference == r) (λ _. k.ids x)
        (λ _. refl);
  files = λ x.
      if_holds (λ (y : ConversationRecord). y.session_file ≡ x.session_file) (x.reference == r)
        (λ _. k.files x) (λ _. refl);
}

pub changed-Apart :
    (change : ConversationRecord → ConversationRecord) (r : ℕ) (s : Registry)
    → KeepsKeys change
    → Apart s.records
    → Apart (change_record change r s).records
changed-Apart change r s k h =
    Apart-map (change_one change r) (change_one-KeepsKeys change r k) s.records h

any-Separate :
    (y : ConversationRecord) (xs : Records)
    → any (clashes y.id y.session_file) xs ≡ false
    → All (λ x. Separate y x) xs
any-Separate y [] h = tt
any-Separate y (x ∷ xs) h = (or_first _ _ h, any-Separate y xs (or_second _ _ h))

pub register-Apart :
    (i : ℕ) (item : Reservation) (fresh : ConversationRecord) (s : Registry)
    → Apart s.records
    → Apart (register i item fresh s).records
unfolding register
register-Apart i item fresh s h =
    if_holds (λ (t : Registry). Apart t.records)
      (any (clashes fresh.id fresh.session_file) s.records) (λ _. h)
      (λ free. Apart-append _ s.records h (any-Separate fresh s.records free))

kept-Separate :
    (r : ℕ) (y : ConversationRecord) (xs : Records)
    → any (clashes_elsewhere r y.id y.session_file) xs ≡ false
    → All (λ x. Separate y x) (keep (λ (x : ConversationRecord). not (x.reference == r)) xs)
kept-Separate r y [] h = tt
kept-Separate r y (x ∷ xs) h =
    elim_holds (λ (ys : Records). All (λ x. Separate y x) ys) (not (x.reference == r))
      (λ elsewhere.
        (and_second _ _ elsewhere (or_first _ _ h), kept-Separate r y xs (or_second _ _ h)))
      (λ _. kept-Separate r y xs (or_second _ _ h))

pub replace-Apart :
    (id : Text) (session_file : Text) (now : ℕ) (item : ConversationRecord) (s : Registry)
    → Apart s.records
    → Apart (replace_identity id session_file now item s).records
unfolding replace_identity
replace-Apart id session_file now item s h =
    if_holds (λ (t : Registry). Apart t.records)
      (any (clashes_elsewhere item.reference id session_file) s.records)
      (λ _. changed-Apart _ item.reference s (record { ids = λ x. refl; files = λ x. refl }) h)
      (λ free. Apart-append _ _ (Apart-keep _ s.records h) (
        kept-Separate item.reference (record item { id = id; session_file = session_file })
          s.records free))
