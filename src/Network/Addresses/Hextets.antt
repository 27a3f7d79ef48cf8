-- ===== src/Network/Addresses/Hextets.antt =====
-- The words of an IPv6 address, printed and parsed again, and where `indexOf("::")` finds the
-- compression of a printed address.
use mathlib.Core.List.{append-nil}
use chatwca.Prelude.{
  All, Bool, List, [], all, ap, arith, false, if◌then◌else◌, leb, length, map, none, not, refl,
  some, sym, true, ℕ, ◌%◌, ◌++◌, ◌/◌, ◌<◌, ◌==◌, ◌∙◌, ◌∷◌, ◌≡◌,
}
use chatwca.Prelude.Text.{
  Text, hex_text, hex_digit, hex_digit_value, hex_from, includes, is_hex_digit, join, split,
}
use chatwca.Prelude.Text.Split.{split-join}
use chatwca.Network.Addresses.Parse.{
  parse_hextet, is_empty, index_of_pair, is_last, parse_hextet_sequence, parse_hextets,
}
use chatwca.Network.Addresses.Format.{hex_words}
use chatwca.Network.Addresses.Canonical.{IsWord}

hex_digit_back : (d : ℕ) → d < 16 → hex_digit_value (hex_digit d) ≡ d
unfolding hex_digit hex_digit_value
hex_digit_back d h = ground arith

hex_digit_hex :
    (d : ℕ)
    → d < 16
    → (is_hex_digit (hex_digit d) ≡ true)
      × ((hex_digit d == b'.') ≡ false)
      × ((hex_digit d == b':') ≡ false)
unfolding hex_digit
hex_digit_hex d h = ground arith

hex_from-hex_text : (w : ℕ) → IsWord w → hex_from 0 (hex_text w) ≡ w
unfolding hex_text hex_from
hex_from-hex_text w h = ground (
  arith,
  hex_digit_back w,
  hex_digit_back (w / 16),
  hex_digit_back (w % 16),
  hex_digit_back (w / 256),
  hex_digit_back (w / 16 % 16),
  hex_digit_back (w / 4096),
  hex_digit_back (w / 256 % 16),
)

-- What `parseHextetSequence` asks of a part, and the printed text has.
pub hex_text_shape :
    (w : ℕ)
    → IsWord w
    → (all is_hex_digit (hex_text w) ≡ true)
      × (includes b'.' (hex_text w) ≡ false)
      × (includes b':' (hex_text w) ≡ false)
      × (leb (length (hex_text w)) 4 ≡ true)
      × (is_empty (hex_text w) ≡ false)
unfolding hex_text
hex_text_shape w h = ground (
  arith,
  hex_digit_hex w,
  hex_digit_hex (w / 16),
  hex_digit_hex (w % 16),
  hex_digit_hex (w / 256),
  hex_digit_hex (w / 16 % 16),
  hex_digit_hex (w / 4096),
  hex_digit_hex (w / 256 % 16),
)

parse_hextet-shaped :
    (allow last : Bool) (t : Text)
    → all is_hex_digit t ≡ true
    → includes b'.' t ≡ false
    → leb (length t) 4 ≡ true
    → is_empty t ≡ false
    → parse_hextet allow last t ≡ some (hex_from 0 t ∷ [])
unfolding parse_hextet
parse_hextet-shaped allow last [] h k l e = cc
parse_hextet-shaped allow last (c ∷ cs) h k l e = rw (k, h, l) refl

parse_hextet-hex_text :
    (allow last : Bool) (w : ℕ) → IsWord w → parse_hextet allow last (hex_text w) ≡ some (w ∷ [])
parse_hextet-hex_text allow last w h =
    let (hex, dot, colon, len, full) = hex_text_shape w h in
    parse_hextet-shaped allow last (hex_text w) hex dot len full
    ∙ ap (λ x. some (x ∷ [])) (hex_from-hex_text w h)

parse_hextets-map :
    (allow : Bool) (ws : List ℕ) → All IsWord ws → parse_hextets allow (map hex_text ws) ≡ some ws
unfolding parse_hextets
parse_hextets-map allow [] h = refl
parse_hextets-map allow (w ∷ ws) (h, k) = ground (
  arith,
  parse_hextet-hex_text allow (is_last (map hex_text ws)) w h,
  parse_hextets-map allow ws k,
)

hex_texts_plain :
    (ws : List ℕ) → All IsWord ws → All (λ t. includes b':' t ≡ false) (map hex_text ws)
hex_texts_plain [] h = tt
hex_texts_plain (w ∷ ws) (h, k) = ((hex_text_shape w h).2, hex_texts_plain ws k)

split-hex_words :
    (w : ℕ) (ws : List ℕ)
    → All IsWord (w ∷ ws)
    → split b':' (hex_words (w ∷ ws)) ≡ map hex_text (w ∷ ws)
unfolding hex_words
split-hex_words w ws h = split-join b':' (hex_text w) (map hex_text ws) (hex_texts_plain (w ∷ ws) h)

sequence_of_parts :
    (t : Text) (allow : Bool)
    → is_empty t ≡ false
    → parse_hextet_sequence t allow ≡ parse_hextets allow (split b':' t)
unfolding parse_hextet_sequence
sequence_of_parts [] allow h = cc
sequence_of_parts (c ∷ cs) allow h = refl

append-not-empty : (p t : Text) → is_empty p ≡ false → is_empty (p ++ t) ≡ false
append-not-empty [] t h = cc
append-not-empty (c ∷ cs) t h = refl

pub hex_words-not-empty : (w : ℕ) (ws : List ℕ) → IsWord w → is_empty (hex_words (w ∷ ws)) ≡ false
unfolding hex_words join
hex_words-not-empty w [] h = (hex_text_shape w h).4
hex_words-not-empty w (v ∷ ws) h = append-not-empty (hex_text w) _ (hex_text_shape w h).4

-- A printed sequence of words parses to the words, the empty one included.
pub parse_hextet_sequence-hex_words :
    (ws : List ℕ) (allow : Bool)
    → All IsWord ws
    → parse_hextet_sequence (hex_words ws) allow ≡ some ws
parse_hextet_sequence-hex_words [] allow h = unfold parse_hextet_sequence hex_words join in refl
parse_hextet_sequence-hex_words (w ∷ ws) allow h =
    sequence_of_parts _ allow (hex_words-not-empty w ws h.0)
    ∙ (ap (parse_hextets allow) (split-hex_words w ws h) ∙ parse_hextets-map allow (w ∷ ws) h)

-- No two colons stand together, and none at the end; `after` says that one stands before.
abbrev spaced : Bool → Text → Bool
spaced after [] = not after
spaced after (c ∷ cs) =
    let rest = spaced true cs in
    if c == b':' then (if after then false else rest) else spaced false cs

spaced-append :
    (p t : Text) (after : Bool)
    → includes b':' p ≡ false
    → is_empty p ≡ false
    → spaced after (p ++ t) ≡ spaced false t
spaced-append [] t after h e = cc
spaced-append (c ∷ []) t after h e = ground arith
spaced-append (c ∷ d ∷ p) t after h e = ground (arith, spaced-append (d ∷ p) t false)

spaced-hex_words :
    (w : ℕ) (ws : List ℕ) → All IsWord (w ∷ ws) → spaced true (hex_words (w ∷ ws)) ≡ true
unfolding hex_words join
spaced-hex_words w [] (h, _) =
    let (hex, dot, colon, len, full) = hex_text_shape w h in
    ap (spaced true) (sym (append-nil (hex_text w))) ∙ spaced-append (hex_text w) [] true colon full
spaced-hex_words w (v ∷ ws) (h, k) =
    let (hex, dot, colon, len, full) = hex_text_shape w h in
    spaced-append (hex_text w) _ true colon full ∙ spaced-hex_words v ws k

index_of_pair-spaced : (t : Text) (after : Bool) → spaced after t ≡ true → index_of_pair t ≡ none
unfolding index_of_pair
index_of_pair-spaced [] after h = refl
index_of_pair-spaced (c ∷ []) after h = refl
index_of_pair-spaced (c ∷ d ∷ t) after h = ground (arith, index_of_pair-spaced (d ∷ t) (c == b':'))

index_of_pair_after :
    (t s : Text) (after : Bool)
    → spaced after t ≡ true
    → index_of_pair (t ++ (b':' ∷ b':' ∷ s)) ≡ some (length t)
unfolding index_of_pair
index_of_pair_after [] s after h = refl
index_of_pair_after (c ∷ []) s after h = ground arith
index_of_pair_after (c ∷ d ∷ t) s after h =
    ground (arith, index_of_pair_after (d ∷ t) s (c == b':'))

pub index_of_pair-hex_words : (ws : List ℕ) → All IsWord ws → index_of_pair (hex_words ws) ≡ none
index_of_pair-hex_words [] h = unfold hex_words join index_of_pair in refl
index_of_pair-hex_words (w ∷ ws) h = index_of_pair-spaced _ true (spaced-hex_words w ws h)

pub index_of_pair-compressed :
    (ws : List ℕ) (s : Text)
    → All IsWord ws
    → index_of_pair (hex_words ws ++ (b':' ∷ b':' ∷ s)) ≡ some (length (hex_words ws))
index_of_pair-compressed [] s h = unfold hex_words join index_of_pair in refl
index_of_pair-compressed (w ∷ ws) s h = index_of_pair_after _ s true (spaced-hex_words w ws h)
