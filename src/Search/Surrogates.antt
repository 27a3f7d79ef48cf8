-- ===== src/Search/Surrogates.antt =====
-- Where a text of src/server/search/extract.ts that is well formed can be cut: everywhere but before
-- a low surrogate.
use chatwca.Prelude.{
  Bool, Bool-cases, [], ap, arith, drop, false, inl, inr, refl, subst, suc, sym, take, true, zero,
  ℕ, ◌+◌, ◌∙◌, ◌∷◌, ◌≡◌, ◌≤◌,
}
use chatwca.Prelude.Slices.{}
use chatwca.Prelude.Text.{Text}
use chatwca.Search.CodePoints.{
  code_point_at, is_high, is_low, is_pair, starts_low, utf8_from, well_formed_from, utf8_width,
  points_from,
}

-- No low surrogate stands at a place.
abbrev pub IsCut : ℕ → Text → Type 0
IsCut i text = starts_low (drop i text) ≡ false

low-not_high : (c : ℕ) → is_low c ≡ true → is_high c ≡ false
low-not_high c h = ground arith

pub well_formed-starts :
    (text : Text) → well_formed_from false text ≡ true → starts_low text ≡ false
unfolding well_formed_from
well_formed-starts [] h = refl
well_formed-starts (c ∷ cs) h = ground (arith, h)

-- A text that must start with a low surrogate does.
pub well_formed-awaits : (text : Text) → well_formed_from true text ≡ true → starts_low text ≡ true
unfolding well_formed_from
well_formed-awaits [] h = absurd (ground (arith, h))
well_formed-awaits (c ∷ cs) h = ground (arith, h)

pub well_formed-rest :
    (f : Bool) (c : ℕ) (cs : Text)
    → well_formed_from f (c ∷ cs) ≡ true
    → well_formed_from (is_high c) cs ≡ true
unfolding well_formed_from
well_formed-rest true c cs h = ground (arith, h)
well_formed-rest false c cs h = ground (arith, h)

pub is_pair-is_high :
    (c : ℕ) (cs : Text) → well_formed_from (is_high c) cs ≡ true → is_pair c cs ≡ is_high c
is_pair-is_high c cs h = elim (Bool-cases (is_high c)) [
  | inl high ↦
      ground (arith, high, well_formed-awaits cs (subst (λ b. well_formed_from b cs ≡ true) high h))
  | inr low ↦ ground (arith, low)
]

pub well_formed-pair :
    (f : Bool) (c : ℕ) (cs : Text)
    → well_formed_from f (c ∷ cs) ≡ true
    → well_formed_from (is_pair c cs) cs ≡ true
well_formed-pair f c cs h =
    let rest = well_formed-rest f c cs h in
    subst (λ b. well_formed_from b cs ≡ true) (sym (is_pair-is_high c cs rest)) rest

-- After the low surrogate of a pair, a code point starts.
pub well_formed-after :
    (f : Bool) (c : ℕ) (cs : Text)
    → well_formed_from f (c ∷ cs) ≡ true
    → f ≡ true
    → well_formed_from false cs ≡ true
unfolding well_formed_from
well_formed-after false c cs h e = absurd (ground (arith, e))
well_formed-after true c cs h e =
    subst (λ b. well_formed_from b cs ≡ true) (low-not_high c (ground (arith, h)))
      (well_formed-rest true c cs h)

pub flag-IsCut :
    (f : Bool) (text : Text) → well_formed_from f text ≡ true → IsCut 0 text → f ≡ false
flag-IsCut false text h cut = refl
flag-IsCut true text h cut = absurd (ground (arith, well_formed-awaits text h, cut))

pub well_formed-drop :
    (f : Bool) (i : ℕ) (text : Text)
    → well_formed_from f text ≡ true
    → IsCut i text
    → well_formed_from false (drop i text) ≡ true
unfolding well_formed_from
well_formed-drop f zero text h cut =
    subst (λ b. well_formed_from b text ≡ true) (flag-IsCut f text h cut) h
well_formed-drop f (suc i) [] h cut = refl
well_formed-drop f (suc i) (c ∷ cs) h cut =
    well_formed-drop (is_high c) i cs (well_formed-rest f c cs h) cut

pub well_formed-take :
    (f : Bool) (i : ℕ) (text : Text)
    → well_formed_from f text ≡ true
    → IsCut i text
    → well_formed_from f (take i text) ≡ true
unfolding well_formed_from
well_formed-take f zero text h cut = ground (arith, flag-IsCut f text h cut)
well_formed-take f (suc i) [] h cut = h
well_formed-take f (suc i) (c ∷ cs) h cut =
    ground (arith, h, well_formed-take (is_high c) i cs (well_formed-rest f c cs h) cut)

-- What a cut leaves of the text before it reads the same code points.
pub is_pair-take : (c i : ℕ) (cs : Text) → IsCut i cs → is_pair c (take i cs) ≡ is_pair c cs
is_pair-take c zero cs cut = ground (arith, cut)
is_pair-take c (suc i) [] cut = refl
is_pair-take c (suc i) (d ∷ ds) cut = refl

pub code_point_at-take :
    (c i : ℕ) (cs : Text) → IsCut i cs → code_point_at c (take i cs) ≡ code_point_at c cs
unfolding code_point_at
code_point_at-take c zero cs cut = ground (arith, cut)
code_point_at-take c (suc i) [] cut = refl
code_point_at-take c (suc i) (d ∷ ds) cut = refl

-- The length in UTF-8 and the number of code points add up at a cut.
pub utf8_split :
    (f : Bool) (i : ℕ) (text : Text)
    → well_formed_from f text ≡ true
    → IsCut i text
    → utf8_from f text ≡ utf8_from f (take i text) + utf8_from false (drop i text)
unfolding utf8_from
utf8_split f zero text h cut = ap (λ b. utf8_from b text) (flag-IsCut f text h cut) ∙ omega arith
utf8_split f (suc i) [] h cut = omega arith
utf8_split true (suc i) (c ∷ cs) h cut =
    utf8_split false i cs (well_formed-after true c cs h refl) cut
utf8_split false (suc i) (c ∷ cs) h cut = omega (
  arith,
  utf8_split (is_pair c cs) i cs (well_formed-pair false c cs h) cut,
  ap utf8_width (code_point_at-take c i cs cut),
  ap (λ b. utf8_from b (take i cs)) (is_pair-take c i cs cut),
)

-- A cut of what stands before a cut, and the other way.
pub IsCut-before :
    (m n : ℕ) (text : Text) → m ≤ n → IsCut n text → IsCut m (take n text) → IsCut m text
IsCut-before zero zero text le cut h = cut
IsCut-before zero (suc n) [] le cut h = refl
IsCut-before zero (suc n) (c ∷ cs) le cut h = h
IsCut-before (suc m) zero text le cut h = absurd (omega (arith, le))
IsCut-before (suc m) (suc n) [] le cut h = refl
IsCut-before (suc m) (suc n) (c ∷ cs) le cut h = IsCut-before m n cs (omega (arith, le)) cut h

pub IsCut-within : (m n : ℕ) (text : Text) → IsCut m text → IsCut m (take n text)
IsCut-within zero zero text h = refl
IsCut-within zero (suc n) [] h = refl
IsCut-within zero (suc n) (c ∷ cs) h = h
IsCut-within (suc m) zero text h = refl
IsCut-within (suc m) (suc n) [] h = refl
IsCut-within (suc m) (suc n) (c ∷ cs) h = IsCut-within m n cs h

-- Before a low surrogate stands no low one, and no text starts with one.
pub low-IsCut :
    (f : Bool) (i : ℕ) (text : Text)
    → well_formed_from f text ≡ true
    → starts_low (drop (suc i) text) ≡ true
    → IsCut i text
low-IsCut f zero [] h low = refl
low-IsCut f zero (c ∷ cs) h low = elim (Bool-cases (is_low c)) [
  | inr other_unit ↦ other_unit
  | inl second ↦ absurd (
      ground (
        arith,
        low,
        well_formed-starts cs (
            subst (λ b. well_formed_from b cs ≡ true) (low-not_high c second)
              (well_formed-rest f c cs h)),
      ))
]
low-IsCut f (suc i) [] h low = refl
low-IsCut f (suc i) (c ∷ cs) h low = low-IsCut (is_high c) i cs (well_formed-rest f c cs h) low

pub points_split :
    (f : Bool) (i : ℕ) (text : Text)
    → well_formed_from f text ≡ true
    → IsCut i text
    → points_from f text ≡ points_from f (take i text) + points_from false (drop i text)
unfolding points_from
points_split f zero text h cut =
    ap (λ b. points_from b text) (flag-IsCut f text h cut) ∙ omega arith
points_split f (suc i) [] h cut = omega arith
points_split true (suc i) (c ∷ cs) h cut =
    points_split false i cs (well_formed-after true c cs h refl) cut
points_split false (suc i) (c ∷ cs) h cut = omega (
  arith,
  points_split (is_pair c cs) i cs (well_formed-pair false c cs h) cut,
  ap (λ b. points_from b (take i cs)) (is_pair-take c i cs cut),
)
