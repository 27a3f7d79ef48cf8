-- ===== src/Prelude/Text/Blank.antt =====
-- `trim` leaves nothing exactly of a text of white space.
use mathlib.Core.List.{reverse_aux}
use chatwca.Prelude.{
  [], all, ap, arith, elim_holds, false, length, refl, reverse, ℕ, ◌&&◌, ◌+◌, ◌==◌, ◌∙◌, ◌∷◌, ◌≡◌,
}
use chatwca.Prelude.Text.{Text, is_space, trim, trim_start}

-- A text that `trim_start` leaves is empty, or starts with what is no white space.
data IsTrimmed : Text → Type 0 where
  nothing_left : IsTrimmed []
  starts : (c : ℕ) (cs : Text) → is_space c ≡ false → IsTrimmed (c ∷ cs)

trim_start-IsTrimmed : (t : Text) → IsTrimmed (trim_start t)
unfolding trim_start
trim_start-IsTrimmed [] = nothing_left
trim_start-IsTrimmed (c ∷ cs) =
    elim_holds IsTrimmed (is_space c) (λ _. trim_start-IsTrimmed cs) (λ word. starts c cs word)

all-trim_start : (t : Text) → all is_space (trim_start t) ≡ all is_space t
unfolding trim_start
all-trim_start [] = refl
all-trim_start (c ∷ cs) =
    elim_holds (λ (u : Text). all is_space u ≡ all is_space (c ∷ cs)) (is_space c)
      (λ space. ground (arith, space, all-trim_start cs)) (λ _. refl)

all-reverse_onto :
    (xs ys : Text) → all is_space (reverse_aux xs ys) ≡ (all is_space xs && all is_space ys)
all-reverse_onto [] ys = refl
all-reverse_onto (x ∷ xs) ys = ground (arith, all-reverse_onto xs (x ∷ ys))

all-reverse : (t : Text) → all is_space (reverse t) ≡ all is_space t
all-reverse t = ground (arith, all-reverse_onto t [])

empty-IsTrimmed : (t : Text) → IsTrimmed t → (length t == 0) ≡ all is_space t
empty-IsTrimmed t nothing_left = refl
empty-IsTrimmed t (starts c cs word) = ground (arith, word)

length-reverse_onto : (xs ys : Text) → length (reverse_aux xs ys) ≡ length xs + length ys
length-reverse_onto [] ys = omega arith
length-reverse_onto (x ∷ xs) ys = omega (arith, length-reverse_onto xs (x ∷ ys))

length-reverse : (t : Text) → length (reverse t) ≡ length t
length-reverse t = omega (arith, length-reverse_onto t [])

pub length-trim : (t : Text) → (length (trim t) == 0) ≡ all is_space t
unfolding trim
length-trim t =
    let first = trim_start t in
    let last = trim_start (reverse first) in
    ap (λ n. n == 0) (length-reverse last)
    ∙ empty-IsTrimmed last (trim_start-IsTrimmed (reverse first))
    ∙ all-trim_start (reverse first)
    ∙ all-reverse first
    ∙ all-trim_start t
