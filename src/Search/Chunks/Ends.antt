-- ===== src/Search/Chunks/Ends.antt =====
-- src/server/search/chunk.ts, `preferredEnd` and `overlapStart`: a chunk ends at a cut after its
-- start, and the next one starts at a cut in it.
use chatwca.Prelude.{
  All, Bool, List, Option, [], ap, arith, drop, elim_holds, false, if_holds, leb, length,
  length-drop, length-take, ltb, ltb→lt, none, option_holds, refl, some, subst, suc, sym, take,
  true, zero, ℕ, ◌*◌, ◌+◌, ◌-◌, ◌<◌, ◌==◌, ◌||◌, ◌∙◌, ◌∷◌, ◌≡◌, ◌≤◌,
}
use chatwca.Prelude.Slices.{drop-all, drop-drop, drop_next}
use chatwca.Prelude.Text.{Text}
use chatwca.Search.CodePoints.{is_high, well_formed_from, starts_low}
use chatwca.Search.Surrogates.{
  IsCut, well_formed-rest, well_formed-starts, IsCut-before, well_formed-drop, well_formed-take,
}
use chatwca.Search.Chunks.{maximum_end, max_chunk_characters, maximum_units, preferred_end, slice}
use chatwca.Search.Chunks.Windows.{maximum_units-length, maximum_units-IsCut, maximum_units-grows}
use chatwca.Search.Boundaries.{
  Matcher, add_one, match_blank_line, last_boundary, later_end, match_line, match_paragraph,
  match_sentence, match_spaces, first_boundary, patterns,
}

-- A match of a pattern ends in the text, at a cut.
record IsMatch (n : ℕ) (text : Text) : Type 0 where
  positive : 0 < n
  inside : n ≤ length text
  cut : IsCut n text

abbrev Matches : Option ℕ → Text → Type 0
Matches none text = Unit
Matches (some n) text = IsMatch n text

matches_first :
    (f : Bool) (c : ℕ) (cs : Text)
    → well_formed_from f (c ∷ cs) ≡ true
    → is_high c ≡ false
    → IsMatch 1 (c ∷ cs)
matches_first f c cs h low = record {
  positive = omega arith;
  inside = omega arith;
  cut =
      well_formed-starts cs
        (subst (λ b. well_formed_from b cs ≡ true) low (well_formed-rest f c cs h));
}

Matches-more : (o : Option ℕ) (c : ℕ) (cs : Text) → Matches o cs → Matches (add_one o) (c ∷ cs)
Matches-more none c cs m = tt
Matches-more (some n) c cs m = record {
  positive = omega arith;
  inside = omega (arith, m.inside);
  cut = m.cut;
}

abbrev AreMatches : Matcher → Type 0
AreMatches matcher =
    (f : Bool) (text : Text) → well_formed_from f text ≡ true → Matches (matcher text) text

match_blank_line-AreMatches : AreMatches match_blank_line
unfolding match_blank_line
match_blank_line-AreMatches f [] h = tt
match_blank_line-AreMatches f (c ∷ cs) h =
    let rest = match_blank_line-AreMatches (is_high c) cs (well_formed-rest f c cs h) in
    elim_holds (λ o. Matches o (c ∷ cs)) (c == 0xa)
      (λ feed. matches_first f c cs h (ground (arith, feed)))
      (λ other.
        elim_holds (λ o. Matches o (c ∷ cs)) (c == 0x20 || c == 0x9)
          (λ blank. Matches-more (match_blank_line cs) c cs rest) (λ no. tt))

match_paragraph-AreMatches : AreMatches match_paragraph
unfolding match_paragraph
match_paragraph-AreMatches f [] h = tt
match_paragraph-AreMatches f (c ∷ cs) h =
    let rest = match_blank_line-AreMatches (is_high c) cs (well_formed-rest f c cs h) in
    elim_holds (λ o. Matches o (c ∷ cs)) (c == 0xa)
      (λ feed. Matches-more (match_blank_line cs) c cs rest) (λ other. tt)

match_line-AreMatches : AreMatches match_line
unfolding match_line
match_line-AreMatches f [] h = tt
match_line-AreMatches f (c ∷ cs) h =
    elim_holds (λ o. Matches o (c ∷ cs)) (c == 0xa)
      (λ feed. matches_first f c cs h (ground (arith, feed))) (λ other. tt)

space-not_high : (c : ℕ) → (c == 0x20 || c == 0x9 || c == 0xa) ≡ true → is_high c ≡ false
space-not_high c h = ground (arith, h)

longer_match :
    (o : Option ℕ) (f : Bool) (c : ℕ) (cs : Text)
    → well_formed_from f (c ∷ cs) ≡ true
    → is_high c ≡ false
    → Matches o cs
    → Matches (elim o [ none ↦ some 1 | some n ↦ some (suc n) ]) (c ∷ cs)
longer_match none f c cs h low m = matches_first f c cs h low
longer_match (some n) f c cs h low m = Matches-more (some n) c cs m

match_spaces-AreMatches : AreMatches match_spaces
unfolding match_spaces
match_spaces-AreMatches f [] h = tt
match_spaces-AreMatches f (c ∷ cs) h =
    let rest = match_spaces-AreMatches (is_high c) cs (well_formed-rest f c cs h) in
    elim_holds (λ o. Matches o (c ∷ cs)) (c == 0x20 || c == 0x9 || c == 0xa)
      (λ space. longer_match (match_spaces cs) f c cs h (space-not_high c space) rest) (λ other. tt)

match_sentence-AreMatches : AreMatches match_sentence
unfolding match_sentence
match_sentence-AreMatches f [] h = tt
match_sentence-AreMatches f (c ∷ cs) h =
    let rest = match_spaces-AreMatches (is_high c) cs (well_formed-rest f c cs h) in
    elim_holds (λ o. Matches o (c ∷ cs)) (c == b'.' || c == b'!' || c == b'?')
      (λ stop. Matches-more (match_spaces cs) c cs rest) (λ other. tt)

-- A boundary that was found is a cut of the slice; 0 is none.
abbrev IsEnd : ℕ → Text → Type 0
IsEnd end slice = (end ≤ length slice) × (0 < end → IsCut end slice)

later_end-IsEnd :
    (size boundary end : ℕ) (slice : Text)
    → IsEnd boundary slice
    → IsEnd end slice
    → IsEnd (later_end size boundary end) slice
later_end-IsEnd size boundary end slice b e =
    if_holds (λ n. IsEnd n slice) (leb size (2 * end)) (λ second. e) (λ first. b)

matched-IsEnd :
    (index n : ℕ) (text slice : Text)
    → drop index slice ≡ text
    → IsMatch n text
    → IsEnd (index + n) slice
matched-IsEnd index n text slice at m = (
  omega (arith, m.positive, m.inside, length-drop index slice, ap length at),
  λ _. ap starts_low (sym (drop-drop index n slice) ∙ ap (drop n) at) ∙ m.cut,
)

last_boundary-IsEnd :
    (matcher : Matcher)
    → AreMatches matcher
    → (size boundary skip index : ℕ) (f : Bool) (text slice : Text) → well_formed_from f text ≡ true
    → drop index slice ≡ text
    → IsEnd boundary slice
    → IsEnd (last_boundary matcher size boundary skip index text) slice
unfolding last_boundary
last_boundary-IsEnd matcher are size boundary skip index f [] slice h at b = b
last_boundary-IsEnd matcher are size boundary (suc skip) index f (c ∷ cs) slice h at b =
    last_boundary-IsEnd matcher are size boundary skip (suc index) (is_high c) cs slice
      (well_formed-rest f c cs h) (drop_next index slice c cs at) b
last_boundary-IsEnd matcher are size boundary zero index f (c ∷ cs) slice h at b =
    let further = λ (boundary' skip' : ℕ).
      last_boundary-IsEnd matcher are size boundary' skip' (suc index) (is_high c) cs slice
        (well_formed-rest f c cs h) (drop_next index slice c cs at) in
    option_holds (λ end. IsEnd end slice) (matcher (c ∷ cs)) (λ missing. further boundary 0 b)
      (λ n matched. further (later_end size boundary (index + n)) (n - 1) (
        later_end-IsEnd size boundary (index + n) slice b (
          matched-IsEnd index n (c ∷ cs) slice at
            (subst (λ o. Matches o (c ∷ cs)) matched (are f (c ∷ cs) h)))))

abbrev AllMatches : List Matcher → Type 0
AllMatches = All AreMatches

patterns-AllMatches : AllMatches patterns
patterns-AllMatches =
    (match_paragraph-AreMatches, (match_sentence-AreMatches, (match_line-AreMatches, tt)))

first_boundary-IsEnd :
    (matchers : List Matcher) (slice : Text)
    → AllMatches matchers
    → well_formed_from false slice ≡ true
    → 0 < length slice
    → (0 < first_boundary matchers slice) × IsEnd (first_boundary matchers slice) slice
unfolding first_boundary
first_boundary-IsEnd [] slice are h some_text =
    (some_text, (omega arith, λ _. ap starts_low (drop-all (length slice) slice (omega arith))))
first_boundary-IsEnd (matcher ∷ matchers) slice (are, others) h some_text =
    let boundary = last_boundary matcher (length slice) 0 0 0 slice in
    let found =
      last_boundary-IsEnd matcher are (length slice) 0 0 0 false slice slice h refl
        (omega arith, λ (e : 0 < 0). absurd (omega (arith, e))) in
    if_holds (λ n. (0 < n) × IsEnd n slice) (ltb 0 boundary)
      (λ positive. (ltb→lt 0 boundary positive, found))
      (λ _. first_boundary-IsEnd matchers slice others h some_text)

-- Where a chunk that starts at a place may end.
pub record IsChunkEnd (text : Text) (start end : ℕ) : Type 0 where
  pub after : start < end
  pub inside : end ≤ length text
  pub cut : IsCut end text
  pub fits : end ≤ maximum_end text start

pub preferred_end-IsChunkEnd :
    (text : Text) (start : ℕ)
    → well_formed_from false text ≡ true
    → IsCut start text
    → start < length text
    → IsChunkEnd text start (preferred_end text start (maximum_end text start))
unfolding preferred_end maximum_end
preferred_end-IsChunkEnd text start h cut before =
    let rest = drop start text in
    let units = length-drop start text in
    let n = maximum_units max_chunk_characters 0 false rest in
    let rest_well : well_formed_from false rest ≡ true = well_formed-drop false start text h cut in
    let grows : 0 < n = maximum_units-grows rest (omega (arith, units, before)) in
    let within : n ≤ length rest = maximum_units-length max_chunk_characters 0 false rest in
    let window : IsCut n rest = maximum_units-IsCut max_chunk_characters 0 false rest rest_well in
    let maximum_cut : IsCut (start + n) text =
      ap starts_low (sym (drop-drop start n text)) ∙ window in
    if_holds (λ end. IsChunkEnd text start end) (start + n == length text)
      (λ whole. record {
        after = omega (arith, grows);
        inside = omega (arith, within, units, before);
        cut = maximum_cut;
        fits = omega arith;
      })
      (λ part.
        let size : start + n - start ≡ n = omega arith in
        let quoted = slice start (start + n) text in
        let same : quoted ≡ take n rest = ap (λ k. take k rest) size in
        let quoted_well : well_formed_from false quoted ≡ true =
          ap (well_formed_from false) same ∙ well_formed-take false n rest rest_well window in
        let quoted_units : length quoted ≡ n = ap length same ∙ length-take n rest within in
        let (positive, (inside, end_cut)) =
          first_boundary-IsEnd patterns quoted patterns-AllMatches quoted_well
            (omega (arith, quoted_units, grows)) in
        let m = first_boundary patterns quoted in
        let m_cut : IsCut m (take n rest) =
          ap (λ t. starts_low (drop m t)) (sym same) ∙ end_cut positive in
        record {
          after = omega (arith, positive);
          inside = omega (arith, inside, quoted_units, within, units, before);
          cut =
              ap starts_low (sym (drop-drop start m text))
              ∙ IsCut-before m n rest (omega (arith, inside, quoted_units)) window m_cut;
          fits = omega (arith, inside, quoted_units);
        })

pub window_end :
    (text : Text) (start end : ℕ)
    → IsChunkEnd text start end
    → end ≤ start + maximum_units max_chunk_characters 0 false (drop start text)
unfolding maximum_end
window_end text start end e = e.fits
