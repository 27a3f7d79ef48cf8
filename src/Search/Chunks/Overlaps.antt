-- ===== src/Search/Chunks/Overlaps.antt =====
-- src/server/search/chunk.ts, `overlapStart`: the next chunk starts at a cut in the one before, after
-- its start.
use chatwca.Prelude.{
  arith, elim_holds, false, if_holds, ltb, ltb→lt, subst, suc, sym, true, zero, ℕ, ◌-◌, ◌<◌, ◌≡◌,
  ◌≤◌,
}
use chatwca.Prelude.Text.{Text}
use chatwca.Search.CodePoints.{well_formed_from}
use chatwca.Search.Surrogates.{IsCut, low-IsCut, well_formed-starts}
use chatwca.Search.Chunks.{overlap_back, overlap_start, is_low_at, chunk_overlap_characters}

-- A step back from a cut leads to one.
step_back-IsCut :
    (text : Text) (next : ℕ)
    → well_formed_from false text ≡ true
    → 0 < next
    → is_low_at text (next - 1) ≡ true
    → IsCut (next - 2) text
step_back-IsCut text zero h positive low = absurd (omega (arith, positive))
step_back-IsCut text (suc zero) h positive low =
    absurd (ground (arith, low, well_formed-starts text h))
step_back-IsCut text (suc (suc next)) h positive low =
    let one : suc (suc next) - 1 ≡ suc next = omega arith in
    let two : suc (suc next) - 2 ≡ next = omega arith in
    subst (λ k. IsCut k text) (sym two)
      (low-IsCut false next text h (subst (λ k. is_low_at text k ≡ true) one low))

overlap_back-IsCut :
    (characters : ℕ) (text : Text) (start next : ℕ)
    → well_formed_from false text ≡ true
    → IsCut next text
    → (overlap_back characters text start next ≤ next)
      × IsCut (overlap_back characters text start next) text
unfolding overlap_back
overlap_back-IsCut zero text start next h cut = (omega arith, cut)
overlap_back-IsCut (suc characters) text start next h cut =
    elim_holds (λ n. (n ≤ next) × IsCut n text) (ltb start next)
      (λ after.
        elim_holds (λ n. (n ≤ next) × IsCut n text) (is_low_at text (next - 1))
          (λ low.
            let (below, there) =
              overlap_back-IsCut characters text start (next - 2) h
                (step_back-IsCut text next h (omega (arith, ltb→lt start next after)) low) in
            (omega (arith, below), there))
          (λ high.
            let (below, there) = overlap_back-IsCut characters text start (next - 1) h high in
            (omega (arith, below), there)))
      (λ reached. (omega arith, cut))

le_refl : (n : ℕ) → n ≤ n
le_refl n = omega arith

pub record IsNextStart (text : Text) (start end next : ℕ) : Type 0 where
  pub after : start < next
  pub inside : next ≤ end
  pub cut : IsCut next text

pub overlap_start-IsNextStart :
    (text : Text) (start end : ℕ)
    → well_formed_from false text ≡ true
    → start < end
    → IsCut end text
    → IsNextStart text start end (overlap_start text start end)
unfolding overlap_start
overlap_start-IsNextStart text start end h before cut =
    let back = overlap_back chunk_overlap_characters text start end in
    let (below, there) = overlap_back-IsCut chunk_overlap_characters text start end h cut in
    if_holds (λ n. IsNextStart text start end n) (ltb start back)
      (λ after. record { after = ltb→lt start back after; inside = below; cut = there })
      (λ reached. record { after = before; inside = le_refl end; cut = cut })
