-- ===== src/Network/Addresses/Canonical.antt =====
-- The printed form of an address passes the first test of `parseIpAddress`: it is not empty, has no
-- white space to trim and no brackets.
use mathlib.Core.List.{reverse-reverse}
use chatwca.Prelude.{
  All, Bool, List, [], all, all-append, all-reverse_aux, arith, false, map, refl, reverse, true, ℕ,
  ◌%◌, ◌/◌, ◌<◌, ◌==◌, ◌||◌, ◌∷◌, ◌≡◌,
}
use chatwca.Prelude.Text.Equality.{text_eq_refl}
use chatwca.Prelude.Text.{
  Text, is_space, trim, trim_start, join, decimal_text, hex_text, hex_digit, is_hex_digit, includes,
}
use chatwca.Network.Addresses.Octets.{IsByte}
use chatwca.Network.Addresses.Parse.{is_empty}
use chatwca.Network.Addresses.Format.{format_ipv4, hex_words}
use chatwca.Network.Addresses.Literal.{is_refused, ends_with_bracket}

-- The characters of printed addresses.
abbrev pub is_literal : ℕ → Bool
is_literal c = is_hex_digit c || c == b'.' || c == b':'

not_space : (c : ℕ) → is_literal c ≡ true → is_space c ≡ false
unfolding is_space
not_space c h = ground arith

trim_start_literal : (t : Text) → all is_literal t ≡ true → trim_start t ≡ t
unfolding trim_start
trim_start_literal [] h = refl
trim_start_literal (c ∷ cs) h = ground (arith, not_space c)

trim_literal : (t : Text) → all is_literal t ≡ true → trim t ≡ t
unfolding trim
trim_literal t h =
    rw
      (
        trim_start_literal t h,
        trim_start_literal (reverse t) (all-reverse_aux is_literal t [] h refl),
      )
      (reverse-reverse t)

ends_literal : (t : Text) → all is_literal t ≡ true → ends_with_bracket t ≡ false
unfolding ends_with_bracket
ends_literal [] h = refl
ends_literal (c ∷ []) h = ground arith
ends_literal (c ∷ d ∷ cs) h = ends_literal (d ∷ cs) (ground arith)

pub is_refused_literal :
    (t : Text) → all is_literal t ≡ true → is_empty t ≡ false → is_refused t ≡ false
unfolding is_refused
is_refused_literal [] h e = cc
is_refused_literal (c ∷ cs) h e =
    rw (trim_literal (c ∷ cs) h, text_eq_refl (c ∷ cs), ends_literal (c ∷ cs) h) (ground arith)

join-all :
    (p : ℕ → Bool) (sep : ℕ) (ps : List Text)
    → p sep ≡ true
    → all (all p) ps ≡ true
    → all p (join sep ps) ≡ true
unfolding join
join-all p sep [] h k = refl
join-all p sep (t ∷ []) h k = ground arith
join-all p sep (t ∷ u ∷ ps) h k =
    all-append p t _ (ground arith) (ground (arith, join-all p sep (u ∷ ps)))

decimal_text_literal : (b : ℕ) → IsByte b → all is_literal (decimal_text b) ≡ true
unfolding decimal_text
decimal_text_literal b h = ground arith

decimal_texts_literal :
    (bytes : List ℕ) → All IsByte bytes → all (all is_literal) (map decimal_text bytes) ≡ true
decimal_texts_literal [] h = refl
decimal_texts_literal (b ∷ bytes) (h, k) =
    ground (arith, decimal_text_literal b h, decimal_texts_literal bytes k)

pub format_ipv4_literal :
    (bytes : List ℕ) → All IsByte bytes → all is_literal (format_ipv4 bytes) ≡ true
unfolding format_ipv4
format_ipv4_literal bytes h = join-all is_literal b'.' _ refl (decimal_texts_literal bytes h)

abbrev pub IsWord : ℕ → Type 0
IsWord w = w < 65536

-- The characters of printed IPv6 addresses.
abbrev pub is_ipv6_char : ℕ → Bool
is_ipv6_char c = is_hex_digit c || c == b':'

hex_digit_char : (d : ℕ) → d < 16 → is_ipv6_char (hex_digit d) ≡ true
unfolding hex_digit
hex_digit_char d h = ground arith

hex_text_chars : (w : ℕ) → IsWord w → all is_ipv6_char (hex_text w) ≡ true
unfolding hex_text
hex_text_chars w h = ground (
  arith,
  hex_digit_char w,
  hex_digit_char (w / 16),
  hex_digit_char (w % 16),
  hex_digit_char (w / 256),
  hex_digit_char (w / 16 % 16),
  hex_digit_char (w / 4096),
  hex_digit_char (w / 256 % 16),
)

hex_texts_chars : (ws : List ℕ) → All IsWord ws → all (all is_ipv6_char) (map hex_text ws) ≡ true
hex_texts_chars [] h = refl
hex_texts_chars (w ∷ ws) (h, k) = ground (arith, hex_text_chars w h, hex_texts_chars ws k)

pub hex_words_chars : (ws : List ℕ) → All IsWord ws → all is_ipv6_char (hex_words ws) ≡ true
unfolding hex_words
hex_words_chars ws h = join-all is_ipv6_char b':' _ refl (hex_texts_chars ws h)

pub ipv6_chars_literal : (t : Text) → all is_ipv6_char t ≡ true → all is_literal t ≡ true
ipv6_chars_literal [] h = refl
ipv6_chars_literal (c ∷ cs) h = ground (arith, ipv6_chars_literal cs)

pub ipv6_chars_plain :
    (t : Text) → all is_ipv6_char t ≡ true → (includes b'.' t ≡ false) × (includes b'%' t ≡ false)
ipv6_chars_plain [] h = (refl, refl)
ipv6_chars_plain (c ∷ cs) h = ground (arith, ipv6_chars_plain cs)
