-- ===== src/Network/Addresses/Octets.antt =====
-- IPv4 literals: every address has exactly one accepted spelling, the one that is printed.
use mathlib.Core.Path.{ap₂}
use chatwca.Prelude.{
  All, List, [], ap, arith, false, length, length-map, map, refl, some, subst, suc, ℕ, ◌<◌, ◌↔◌,
  ◌∙◌, ◌∷◌, ◌≡◌,
}
use chatwca.Prelude.Text.{Text, includes, split, join, decimal_text}
use chatwca.Prelude.Text.Split.{split-join, join-split}
use chatwca.Network.Addresses.Format.{format_ipv4}
use chatwca.Network.Addresses.Parse.{parse_octet, parse_octets, parse_ipv4}

abbrev pub IsByte : ℕ → Type 0
IsByte b = b < 256

parse_octet-decimal_text : (b : ℕ) → IsByte b → parse_octet (decimal_text b) ≡ some b
unfolding parse_octet decimal_text
parse_octet-decimal_text b h = ground arith

decimal_text-parse_octet :
    (p : Text) (b : ℕ) → parse_octet p ≡ some b → (decimal_text b ≡ p) × IsByte b
unfolding parse_octet decimal_text
decimal_text-parse_octet [] b h = cc
decimal_text-parse_octet (c ∷ []) b h = ground arith
decimal_text-parse_octet (c ∷ d ∷ []) b h = ground arith
decimal_text-parse_octet (c ∷ d ∷ e ∷ []) b h = ground arith
decimal_text-parse_octet (c ∷ d ∷ e ∷ f ∷ cs) b h = ground arith

decimal_text_plain : (b : ℕ) → IsByte b → includes b'.' (decimal_text b) ≡ false
unfolding decimal_text
decimal_text_plain b h = ground arith

pub parse_octets-map :
    (bytes : List ℕ) → All IsByte bytes → parse_octets (map decimal_text bytes) ≡ some bytes
unfolding parse_octets
parse_octets-map [] h = refl
parse_octets-map (b ∷ bytes) (h, k) =
    ground (arith, parse_octet-decimal_text b h, parse_octets-map bytes k)

-- What a list of parts stands for: it spells the bytes, one part each.
abbrev Spells : List Text → List ℕ → Type 0
Spells parts bytes =
    (map decimal_text bytes ≡ parts) × All IsByte bytes × (length bytes ≡ length parts)

Spells-cons :
    (p : Text) (ps : List Text) (b : ℕ) (bs : List ℕ)
    → parse_octet p ≡ some b
    → Spells ps bs
    → Spells (p ∷ ps) (b ∷ bs)
Spells-cons p ps b bs h k =
    let (text, byte) = decimal_text-parse_octet p b h in (ap₂ ◌∷◌ text k.0, (byte, k.1), ap suc k.2)

parse_octets-cons :
    (p : Text) (ps : List Text) (bytes : List ℕ)
    → parse_octets (p ∷ ps) ≡ some bytes
    → (b : ℕ) × (bs : List ℕ) × (parse_octet p ≡ some b)
      × (parse_octets ps ≡ some bs)
      × (bytes ≡ b ∷ bs)
unfolding parse_octets
parse_octets-cons p ps bytes h = ground arith

parse_octets-Spells :
    (parts : List Text) (bytes : List ℕ) → parse_octets parts ≡ some bytes → Spells parts bytes
unfolding parse_octets
parse_octets-Spells [] [] h = (refl, tt, refl)
parse_octets-Spells [] (b ∷ bytes) h = cc
parse_octets-Spells (p ∷ ps) bytes h =
    let (b, bs, first, later, e) = parse_octets-cons p ps bytes h in
    rw e (Spells-cons p ps b bs first (parse_octets-Spells ps bs later))

decimal_texts_plain :
    (bytes : List ℕ)
    → All IsByte bytes
    → All (λ t. includes b'.' t ≡ false) (map decimal_text bytes)
decimal_texts_plain [] h = tt
decimal_texts_plain (b ∷ bytes) (h, k) = (decimal_text_plain b h, decimal_texts_plain bytes k)

length-split-join :
    (bytes : List ℕ)
    → length bytes ≡ 4
    → All IsByte bytes
    → split b'.' (join b'.' (map decimal_text bytes)) ≡ map decimal_text bytes
length-split-join [] e h = absurd (omega arith)
length-split-join (b ∷ bytes) e h =
    split-join b'.' (decimal_text b) (map decimal_text bytes) (decimal_texts_plain (b ∷ bytes) h)

parse_ipv4_sound :
    (t : Text) (bytes : List ℕ)
    → parse_ipv4 t ≡ some bytes
    → (format_ipv4 bytes ≡ t) × (length bytes ≡ 4) × All IsByte bytes
unfolding parse_ipv4 format_ipv4
parse_ipv4_sound t bytes h =
    let four : length (split b'.' t) ≡ 4 = ground arith in
    let (text, isbyte, len) = parse_octets-Spells (split b'.' t) bytes (ground arith) in
    (ap (join b'.') text ∙ join-split b'.' t, len ∙ four, isbyte)

parse_ipv4-format_ipv4 :
    (bytes : List ℕ)
    → length bytes ≡ 4
    → All IsByte bytes
    → parse_ipv4 (format_ipv4 bytes) ≡ some bytes
unfolding parse_ipv4 format_ipv4
parse_ipv4-format_ipv4 bytes e h =
    rw (length-split-join bytes e h, length-map decimal_text bytes, e) (parse_octets-map bytes h)

-- A text parses to the bytes of an IPv4 address exactly when it is the printed form of these bytes,
-- they are four, and each is below 256.
pub parse_ipv4_iff :
    (t : Text) (bytes : List ℕ)
    → (parse_ipv4 t ≡ some bytes)
      ↔ ((format_ipv4 bytes ≡ t) × (length bytes ≡ 4) × All IsByte bytes)
parse_ipv4_iff t bytes = (
  parse_ipv4_sound t bytes,
  λ p. subst (λ x. parse_ipv4 x ≡ some bytes) p.0 (parse_ipv4-format_ipv4 bytes p.1 p.2),
)
