-- ===== src/Network/Addresses/Shape.antt =====
-- What the IPv6 parser returns: sixteen bytes.
use mathlib.Core.Option.{none-ne-some, some-injective}
use chatwca.Prelude.{
  All, All-append, Bool, Bool-cases, List, Option, Option-cases, [], arith, drop, false, inl, inr,
  leb, length, length-append, length-replicate, none, refl, replicate, some, suc, sym, take, true,
  zero, ℕ, ◌++◌, ◌+◌, ◌-◌, ◌<◌, ◌∷◌, ◌≡◌, ◌⊎◌,
}
use chatwca.Prelude.Text.{split, Text, hex_digit_value, hex_from, is_hex_digit}
use chatwca.Network.Addresses.Octets.{IsByte, parse_ipv4_iff}
use chatwca.Network.Addresses.Canonical.{IsWord}
use chatwca.Network.Addresses.Parse.{
  parse_words, bytes_of_words, fill_zeros, is_hextet_text, is_last, parse_hextet,
  parse_hextet_sequence, parse_hextets, parse_ipv4, parse_ipv6, tail_words, eight_words,
  index_of_pair,
}

hex_digit_value-lt : (c : ℕ) → is_hex_digit c ≡ true → hex_digit_value c < 16
unfolding hex_digit_value
hex_digit_value-lt c h = ground arith

hextet-IsWord : (t : Text) → is_hextet_text t ≡ true → IsWord (hex_from 0 t)
unfolding hex_from
hextet-IsWord [] h = omega arith
hextet-IsWord (c ∷ []) h = ground (arith, hex_digit_value-lt c)
hextet-IsWord (c ∷ d ∷ []) h = ground (arith, hex_digit_value-lt c, hex_digit_value-lt d)
hextet-IsWord (c ∷ d ∷ e ∷ []) h =
    ground (arith, hex_digit_value-lt c, hex_digit_value-lt d, hex_digit_value-lt e)
hextet-IsWord (c ∷ d ∷ e ∷ f ∷ []) h =
    ground (
      arith,
      hex_digit_value-lt c,
      hex_digit_value-lt d,
      hex_digit_value-lt e,
      hex_digit_value-lt f,
    )
hextet-IsWord (c ∷ d ∷ e ∷ f ∷ g ∷ t) h = ground arith

tail_words-IsWord : (bytes : List ℕ) → All IsByte bytes → All IsWord (tail_words bytes)
tail_words-IsWord [] h = tt
tail_words-IsWord (a ∷ []) h = tt
tail_words-IsWord (a ∷ b ∷ []) h = tt
tail_words-IsWord (a ∷ b ∷ c ∷ []) h = tt
tail_words-IsWord (a ∷ b ∷ c ∷ d ∷ []) h = omega arith
tail_words-IsWord (a ∷ b ∷ c ∷ d ∷ e ∷ bytes) h = tt

parse_hextet-cases :
    (allow last : Bool) (t : Text) (ws : List ℕ)
    → parse_hextet allow last t ≡ some ws
    → ((bytes : List ℕ) × (parse_ipv4 t ≡ some bytes) × (ws ≡ tail_words bytes))
      ⊎ ((is_hextet_text t ≡ true) × (ws ≡ hex_from 0 t ∷ []))
unfolding parse_hextet
parse_hextet-cases allow last [] ws h = cc
parse_hextet-cases allow last (c ∷ cs) ws h = ground arith

parse_hextet-IsWord :
    (allow last : Bool) (t : Text) (ws : List ℕ)
    → parse_hextet allow last t ≡ some ws
    → All IsWord ws
parse_hextet-IsWord allow last t ws h = elim (parse_hextet-cases allow last t ws h) [
  | inl tail ↦ rw tail.2 (tail_words-IsWord tail.0 ((parse_ipv4_iff t tail.0).0 tail.1).2)
  | inr plain ↦ rw plain.1 (hextet-IsWord t plain.0, tt)
]

parse_hextets-cons :
    (allow : Bool) (p : Text) (ps : List Text) (ws : List ℕ)
    → parse_hextets allow (p ∷ ps) ≡ some ws
    → (xs : List ℕ) × (ys : List ℕ) × (parse_hextet allow (is_last ps) p ≡ some xs)
      × (parse_hextets allow ps ≡ some ys)
      × (ws ≡ xs ++ ys)
unfolding parse_hextets
parse_hextets-cons allow p ps ws h = ground arith

parse_hextets-IsWord :
    (allow : Bool) (ps : List Text) (ws : List ℕ) → parse_hextets allow ps ≡ some ws → All IsWord ws
parse_hextets-IsWord allow [] ws h = unfold parse_hextets in ground arith
parse_hextets-IsWord allow (p ∷ ps) ws h =
    let (xs, ys, first, later, e) = parse_hextets-cons allow p ps ws h in
    rw e (
      All-append IsWord xs ys (parse_hextet-IsWord allow (is_last ps) p xs first)
        (parse_hextets-IsWord allow ps ys later))

sequence-IsWord :
    (t : Text) (allow : Bool) (ws : List ℕ)
    → parse_hextet_sequence t allow ≡ some ws
    → All IsWord ws
unfolding parse_hextet_sequence
sequence-IsWord [] allow ws h = ground arith
sequence-IsWord (c ∷ cs) allow ws h = parse_hextets-IsWord allow (split b':' (c ∷ cs)) ws h

All-zeros : (n : ℕ) → All IsWord (replicate n 0)
All-zeros zero = tt
All-zeros (suc n) = (omega arith, All-zeros n)

filled-IsWord :
    (left right : List ℕ)
    → All IsWord left
    → All IsWord right
    → All IsWord (left ++ (replicate (8 - length left - length right) 0 ++ right))
filled-IsWord left right h k =
    All-append IsWord left _ h
      (All-append IsWord (replicate (8 - length left - length right) 0) right (All-zeros _) k)

-- How `fillZeros` succeeds.
abbrev Filled : Option (List ℕ) → Option (List ℕ) → List ℕ → Type 0
Filled x y ws =
    (left : List ℕ) × (right : List ℕ) × (x ≡ some left)
    × (y ≡ some right)
    × (length left + length right < 8)
    × (ws ≡ left ++ (replicate (8 - length left - length right) 0 ++ right))

fill_zeros-Filled : (x y : Option (List ℕ)) (ws : List ℕ) → fill_zeros x y ≡ some ws → Filled x y ws
unfolding fill_zeros
fill_zeros-Filled none y ws h = cc
fill_zeros-Filled (some left) none ws h = cc
fill_zeros-Filled (some left) (some right) ws h =
    elim (Bool-cases (leb 8 (length left + length right))) [
      | inl many ↦ absurd (none-ne-some ws (rw many at h))
      | inr few ↦ (left, right, refl, refl, ground arith, sym (some-injective _ _ (rw few at h)))
    ]

Filled-IsWord :
    (x y : Option (List ℕ)) (ws : List ℕ)
    → ((left : List ℕ) → x ≡ some left → All IsWord left)
    → ((right : List ℕ) → y ≡ some right → All IsWord right)
    → Filled x y ws
    → All IsWord ws × (length ws ≡ 8)
Filled-IsWord x y ws h k (left, right, before, after, few, e) =
    let n = 8 - length left - length right in
    rw e (
      filled-IsWord left right (h left before) (k right after),
      omega (
        arith,
        length-append left (replicate n 0 ++ right),
        length-append (replicate n 0) right,
        length-replicate {A = ℕ} n 0,
      ),
    )

eight_words-cases :
    (x : Option (List ℕ)) (ws : List ℕ) → eight_words x ≡ some ws → (x ≡ some ws) × (length ws ≡ 8)
eight_words-cases none ws h = cc
eight_words-cases (some xs) ws h = ground arith

parse_words-IsWord :
    (t : Text) (ws : List ℕ) → parse_words t ≡ some ws → All IsWord ws × (length ws ≡ 8)
unfolding parse_words
parse_words-IsWord t ws h = elim (Option-cases (index_of_pair t)) [
  | inl plain ↦
      let (parsed, len) = eight_words-cases _ ws (rw (plain, parse_words) at h) in
      (sequence-IsWord t true ws parsed, len)
  | inr (at, found) ↦ elim (Option-cases (index_of_pair (drop (at + 2) t))) [
    | inl alone ↦
        Filled-IsWord (parse_hextet_sequence (take at t) false)
          (parse_hextet_sequence (drop (at + 2) t) true) ws
          (λ left e. sequence-IsWord (take at t) false left e)
          (λ right e. sequence-IsWord (drop (at + 2) t) true right e)
          (fill_zeros-Filled _ _ ws (ground arith))
    | inr twice ↦ absurd (none-ne-some ws (ground (arith, twice.1)))
  ]
]

bytes_of_words-IsByte :
    (ws : List ℕ)
    → All IsWord ws
    → All IsByte (bytes_of_words ws) × (length (bytes_of_words ws) ≡ length ws + length ws)
bytes_of_words-IsByte [] h = (tt, omega arith)
bytes_of_words-IsByte (w ∷ ws) (h, k) =
    let (bytes, len) = bytes_of_words-IsByte ws k in
    ((omega arith, (omega arith, bytes)), omega arith)

parse_ipv6-cases :
    (t : Text) (bytes : List ℕ)
    → parse_ipv6 t ≡ some bytes
    → (ws : List ℕ) × (parse_words t ≡ some ws) × (bytes ≡ bytes_of_words ws)
unfolding parse_ipv6
parse_ipv6-cases t bytes h = ground arith

-- A text that parses as an IPv6 address gives sixteen numbers below 256.
pub parse_ipv6-IsByte :
    (t : Text) (bytes : List ℕ) → parse_ipv6 t ≡ some bytes → (length bytes ≡ 16) × All IsByte bytes
parse_ipv6-IsByte t bytes h =
    let (ws, parsed, e) = parse_ipv6-cases t bytes h in
    let (good, eight) = parse_words-IsWord t ws parsed in
    let (isbyte, len) = bytes_of_words-IsByte ws good in rw e (omega (arith, len, eight), isbyte)
