-- ===== src/Network/Addresses/Format.antt =====
-- src/server/network/addresses.ts, `formatIpv4`, `formatIpv6`, `mappedIpv4`.
use chatwca.Prelude.{
  Bool, List, Option, [], all, drop, if◌then◌else◌, leb, length, ltb, map, none, some, suc, take,
  zero, ℕ, ◌&&◌, ◌*◌, ◌++◌, ◌+◌, ◌==◌, ◌∷◌,
}
use chatwca.Prelude.Text.{Text, join, decimal_text, hex_text}

unfoldable pub format_ipv4 : List ℕ → Text
format_ipv4 bytes = join b'.' (map decimal_text bytes)

-- The words of sixteen bytes, `(high << 8) | low`.
abbrev pub words_of_bytes : List ℕ → List ℕ
words_of_bytes [] = []
words_of_bytes (_ ∷ []) = []
words_of_bytes (hi ∷ lo ∷ bytes) = (hi * 256 + lo) ∷ words_of_bytes bytes

-- `end - index` of the inner loop: how many zeros the list begins with.
unfoldable pub zeros : List ℕ → ℕ
zeros [] = 0
zeros (zero ∷ ws) = zeros ws + 1
zeros (suc _ ∷ ws) = 0

-- `bestStart` and `bestLength`; no start stands for -1.
pub record Best : Type 0 where
  pub start : Option ℕ
  pub run : ℕ

abbrev pub better : ℕ → ℕ → Best → Best
better index n best =
    if leb 2 n && ltb best.run n then record { start = some index; run = n } else best

-- The outer loop, on the words from `index` on. Each round passes one word at least, so fuel of
-- the number of words suffices.
unfoldable pub best_run : ℕ → ℕ → List ℕ → Best → Best
unfolding zeros
best_run zero index words best = best
best_run (suc fuel) index [] best = best
best_run (suc fuel) index (suc w ∷ words) best = best_run fuel (index + 1) words best
best_run (suc fuel) index (zero ∷ words) best =
    best_run fuel (index + (zeros words + 1)) (drop (zeros words) words)
      (better index (zeros words + 1) best)

abbrev pub no_run : Best
no_run = record { start = none; run = 0 }

unfoldable pub hex_words : List ℕ → Text
hex_words words = join b':' (map hex_text words)

-- The four returns on an address that is compressed come to one text, as an empty side is empty.
unfoldable pub format_words : List ℕ → Best → Text
format_words words best = elim best.start [
  | none ↦ hex_words words
  | some start ↦
      hex_words (take start words) ++ (b':' ∷ b':' ∷ hex_words (drop (start + best.run) words))
]

unfoldable pub format_ipv6 : List ℕ → Text
format_ipv6 bytes =
    let words = words_of_bytes bytes in format_words words (best_run 8 0 words no_run)

-- The loop of `mappedIpv4` over the first ten bytes.
abbrev pub all_zero : List ℕ → Bool
all_zero = all (λ b. b == 0)

unfoldable pub mapped_ipv4 : List ℕ → Option (List ℕ)
mapped_ipv4 bytes =
    if length bytes == 16
    then (if all_zero (take 10 bytes)
        then elim (drop 10 bytes) [
          | [] ↦ none
          | x ∷ rest ↦ elim rest [
            | [] ↦ none
            | y ∷ tail ↦ if (x == 255) && (y == 255) then some tail else none
          ]
        ]
        else none)
    else none
