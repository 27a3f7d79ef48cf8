-- ===== src/Network/Addresses/Roundtrip.antt =====
-- Printing an IPv6 address and parsing it gives the address back.
use native.Mathlib.Nat.{suc-add}
use chatwca.Prelude.{
  All, List, Option-cases, [], all, all-append, ap, arith, drop, false, inl, inr, leb, length,
  length-drop, length-take, refl, replicate, some, suc, take, true, zero, ℕ, ◌%◌, ◌*◌, ◌++◌, ◌+◌,
  ◌-◌, ◌/◌, ◌∙◌, ◌∷◌, ◌≡◌, ◌≤◌,
}
use chatwca.Prelude.Text.{Text}
use chatwca.Network.Addresses.Octets.{IsByte}
use chatwca.Network.Addresses.Canonical.{IsWord, hex_words_chars, ipv6_chars_plain, is_ipv6_char}
use chatwca.Network.Addresses.Parse.{
  parse_words, fill_zeros, bytes_of_words, index_of_pair, is_empty, parse_hextet_sequence,
  parse_ipv6,
}
use chatwca.Network.Addresses.Format.{
  Best, format_words, words_of_bytes, hex_words, best_run, format_ipv6, no_run,
}
use chatwca.Network.Addresses.Hextets.{
  parse_hextet_sequence-hex_words, index_of_pair-compressed, index_of_pair-hex_words,
}
use chatwca.Network.Addresses.Compression.{IsRun, best_run_lem}

All-take : (n : ℕ) (ws : List ℕ) → All IsWord ws → All IsWord (take n ws)
All-take zero ws h = tt
All-take (suc n) [] h = tt
All-take (suc n) (w ∷ ws) (h, k) = (h, All-take n ws k)

All-drop : (n : ℕ) (ws : List ℕ) → All IsWord ws → All IsWord (drop n ws)
All-drop zero ws h = h
All-drop (suc n) [] h = tt
All-drop (suc n) (w ∷ ws) (h, k) = All-drop n ws k

take-before : (p t : Text) → take (length p) (p ++ t) ≡ p
take-before [] t = refl
take-before (c ∷ p) t = ap (◌∷◌ c) (take-before p t)

drop-after : (p : Text) (c d : ℕ) (t : Text) → drop (length p + 2) (p ++ (c ∷ d ∷ t)) ≡ t
drop-after [] c d t = refl
drop-after (x ∷ p) c d t = rw suc-add (drop-after p c d t)

-- A text whose first "::" stands between two printed sequences.
parse_compressed :
    (left right : List ℕ)
    → All IsWord left
    → All IsWord right
    → parse_words (hex_words left ++ (b':' ∷ b':' ∷ hex_words right))
      ≡ fill_zeros (some left) (some right)
unfolding parse_words
parse_compressed left right h k = ground (
  arith,
  index_of_pair-compressed left (hex_words right) h,
  take-before (hex_words left) (b':' ∷ b':' ∷ hex_words right),
  drop-after (hex_words left) b':' b':' (hex_words right),
  index_of_pair-hex_words right k,
  parse_hextet_sequence-hex_words left false h,
  parse_hextet_sequence-hex_words right true k,
)

fill_zeros-run :
    (left right ws : List ℕ) (n : ℕ)
    → length ws ≡ 8
    → 2 ≤ n
    → length left + (n + length right) ≡ 8
    → left ++ (replicate n 0 ++ right) ≡ ws
    → fill_zeros (some left) (some right) ≡ some ws
unfolding fill_zeros
fill_zeros-run left right ws n e h k same =
    let fits : leb 8 (length left + length right) ≡ false = ground arith in
    let count : 8 - length left - length right ≡ n = omega arith in rw (fits, count, same)

parse_words-plain :
    (ws : List ℕ) → length ws ≡ 8 → All IsWord ws → parse_words (hex_words ws) ≡ some ws
unfolding parse_words
parse_words-plain ws e h =
    ground (arith, index_of_pair-hex_words ws h, parse_hextet_sequence-hex_words ws true h)

parse_words-format_words :
    (ws : List ℕ) (best : Best)
    → length ws ≡ 8
    → All IsWord ws
    → IsRun ws best
    → parse_words (format_words ws best) ≡ some ws
unfolding format_words
parse_words-format_words ws best e h r = elim (Option-cases best.start) [
  | inl plain ↦ rw plain (parse_words-plain ws e h)
  | inr (s, found) ↦
      let run = best.run in
      let (two, fits, same) = rw found at r in
      rw found (
        parse_compressed (take s ws) (drop (s + run) ws) (All-take s ws h) (All-drop (s + run) ws h)
        ∙ fill_zeros-run (take s ws) (drop (s + run) ws) ws run e two
            (omega (arith, length-take s ws, length-drop (s + run) ws)) same)
]

parse_words-not-empty :
    (t : Text) (ws : List ℕ) → length ws ≡ 8 → parse_words t ≡ some ws → is_empty t ≡ false
unfolding parse_words index_of_pair parse_hextet_sequence
parse_words-not-empty [] ws e h = cc
parse_words-not-empty (c ∷ cs) ws e h = refl

words_of_bytes-IsWord : (bytes : List ℕ) → All IsByte bytes → All IsWord (words_of_bytes bytes)
words_of_bytes-IsWord [] h = tt
words_of_bytes-IsWord (b ∷ []) h = tt
words_of_bytes-IsWord (b ∷ c ∷ bytes) (h, (k, l)) = (omega arith, words_of_bytes-IsWord bytes l)

-- An even number of bytes, twice the count.
bytes_of_words-words_of_bytes :
    (n : ℕ) (bytes : List ℕ)
    → length bytes ≡ n + n
    → All IsByte bytes
    → (bytes_of_words (words_of_bytes bytes) ≡ bytes) × (length (words_of_bytes bytes) ≡ n)
bytes_of_words-words_of_bytes n [] e h = (refl, omega arith)
bytes_of_words-words_of_bytes n (b ∷ []) e h = absurd (omega arith)
bytes_of_words-words_of_bytes zero (b ∷ c ∷ bytes) e h = absurd (omega arith)
bytes_of_words-words_of_bytes (suc n) (b ∷ c ∷ bytes) e (h, (k, l)) =
    let (same, len) = bytes_of_words-words_of_bytes n bytes (omega arith) l in
    let high : (b * 256 + c) / 256 ≡ b = omega arith in
    let low : (b * 256 + c) % 256 ≡ c = omega arith in (rw (high, low, same), ap suc len)

pub format_ipv6-chars :
    (bytes : List ℕ) → All IsByte bytes → all is_ipv6_char (format_ipv6 bytes) ≡ true
unfolding format_ipv6 format_words
format_ipv6-chars bytes h =
    let ws = words_of_bytes bytes in
    let good = words_of_bytes-IsWord bytes h in
    let best = best_run 8 0 ws no_run in
    elim (Option-cases best.start) [
      | inl plain ↦ rw plain (hex_words_chars ws good)
      | inr (s, found) ↦ rw found (
          all-append is_ipv6_char (hex_words (take s ws)) _
            (hex_words_chars (take s ws) (All-take s ws good))
            (hex_words_chars (drop (s + best.run) ws) (All-drop (s + best.run) ws good)))
    ]

-- The printed form of sixteen numbers below 256 parses, as an IPv6 address, to these numbers.
pub parse_ipv6-format_ipv6 :
    (bytes : List ℕ)
    → length bytes ≡ 16
    → All IsByte bytes
    → parse_ipv6 (format_ipv6 bytes) ≡ some bytes
unfolding parse_ipv6
parse_ipv6-format_ipv6 bytes e h =
    let ws = words_of_bytes bytes in
    let (back, eight) = bytes_of_words-words_of_bytes 8 bytes e h in
    let parsed : parse_words (format_ipv6 bytes) ≡ some ws =
      unfold format_ipv6 in
      parse_words-format_words ws (best_run 8 0 ws no_run) eight (words_of_bytes-IsWord bytes h)
        (best_run_lem ws) in
    let full = parse_words-not-empty (format_ipv6 bytes) ws eight parsed in
    let (dots, percent) = ipv6_chars_plain (format_ipv6 bytes) (format_ipv6-chars bytes h) in
    rw (full, percent, parsed, back)
