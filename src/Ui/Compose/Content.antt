-- ===== src/Ui/Compose/Content.antt =====
-- internal/ui/room/compose/wrap.go: wrapping neither loses nor moves a rune.
use coderoom.Prelude.{
  ℕ, suc, ◌≡◌, refl, sym, ap, ◌∙◌, true, false, List, [], ◌∷◌, ◌++◌, map, arith, Bool-cases, inl,
  inr, if◌then◌else◌,
}
use mathlib.Core.List.{append_assoc, append-nil}
use coderoom.Ui.Compose.{
  Runes, Lines, next_line, repeat_spaces, flush_word_and_spaces, maybe_wrap_long_word,
  append_final_word, wrap_from, wrap_textarea_line,
}

module _ {R : Type 0} where
  abbrev pub joined_lines : List (List R) → List R
  joined_lines [] = []
  joined_lines (l ∷ ls) = l ++ joined_lines ls

  abbrev content : Lines R → List R
  content l = joined_lines l.above ++ l.row

  joined_lines-append :
      (ls : List (List R)) (l : List R) → joined_lines (ls ++ l ∷ []) ≡ joined_lines ls ++ l
  joined_lines-append [] l = append-nil l
  joined_lines-append (k ∷ ks) l =
      ap (λ rs. k ++ rs) (joined_lines-append ks l) ∙ sym (append_assoc k (joined_lines ks) l)

  next_line-content : (rs : List R) (l : Lines R) → content (next_line rs l) ≡ content l ++ rs
  next_line-content rs l = ap (λ xs. xs ++ rs) (joined_lines-append l.above l.row)

  row-content :
      (rs : List R) (l : Lines R) → content (record l { row = l.row ++ rs }) ≡ content l ++ rs
  row-content rs l = sym (append_assoc (joined_lines l.above) l.row rs)

module _ {R : Type 0} (runes : Runes R) where
  -- A space of any kind is written as a blank.
  abbrev pub written : R → R
  written r = if runes.is_space r then runes.blank else r

  flush-content :
      (l : Lines R) (word : List R) (spaces width : ℕ)
      → content (flush_word_and_spaces runes l word spaces width)
        ≡ content l ++ (word ++ repeat_spaces runes spaces)
  unfolding flush_word_and_spaces
  flush-content l word spaces width = ground (
    arith,
    next_line-content (word ++ repeat_spaces runes spaces) l,
    row-content (word ++ repeat_spaces runes spaces) l,
  )

  long_word-content :
      (l : Lines R) (word : List R) (width : ℕ)
      → content (maybe_wrap_long_word runes l word width).0
          ++ (maybe_wrap_long_word runes l word width).1
        ≡ content l ++ word
  unfolding maybe_wrap_long_word
  long_word-content l [] width = refl
  long_word-content l (r ∷ rs) width = ground (
    arith,
    next_line-content (r ∷ rs) l,
    row-content (r ∷ rs) l,
    append-nil (content (next_line (r ∷ rs) l)),
    append-nil (content (record l { row = l.row ++ r ∷ rs })),
  )

  final-content :
      (l : Lines R) (word : List R) (spaces width : ℕ)
      → joined_lines (append_final_word runes l word spaces width)
        ≡ content l ++ (word ++ repeat_spaces runes (suc spaces))
  unfolding append_final_word
  final-content l word spaces width =
      let more = word ++ repeat_spaces runes (suc spaces) in
      let next : Lines R = next_line more l in
      let same : Lines R = record l { row = l.row ++ more } in
      ground (
        arith,
        joined_lines-append next.above next.row,
        next_line-content more l,
        joined_lines-append same.above same.row,
        row-content more l,
      )

  wrap_from_space :
      (r : R) (rs : List R) (l : Lines R) (word : List R) (width : ℕ)
      → runes.is_space r ≡ true
      → wrap_from runes (r ∷ rs) l word width
        ≡ wrap_from runes rs (flush_word_and_spaces runes l word 1 width) [] width
  unfolding wrap_from
  wrap_from_space r rs l word width e = ground (arith, e)

  wrap_from_other :
      (r : R) (rs : List R) (l : Lines R) (word : List R) (width : ℕ)
      → runes.is_space r ≡ false
      → wrap_from runes (r ∷ rs) l word width
        ≡ wrap_from runes rs
            (maybe_wrap_long_word runes l (word ++ r ∷ []) width).0
            (maybe_wrap_long_word runes l (word ++ r ∷ []) width).1
            width
  unfolding wrap_from
  wrap_from_other r rs l word width e = ground (arith, e)

  written_space : (r : R) → runes.is_space r ≡ true → runes.blank ≡ written r
  written_space r e = ground (arith, e)

  written_other : (r : R) → runes.is_space r ≡ false → r ≡ written r
  written_other r e = ground (arith, e)

  -- One rune goes from the word to what follows.
  regroup :
      (xs word : List R) (x : R) (tail : List R)
      → (xs ++ (word ++ x ∷ [])) ++ tail ≡ (xs ++ word) ++ x ∷ tail
  regroup xs word x tail =
      append_assoc xs (word ++ x ∷ []) tail
      ∙ ap (λ ys. xs ++ ys) (append_assoc word (x ∷ []) tail)
      ∙ sym (append_assoc xs word (x ∷ tail))

  wrap_from-content :
      (rs : List R) (l : Lines R) (word : List R) (width : ℕ)
      → joined_lines (wrap_from runes rs l word width)
        ≡ (content l ++ word) ++ (map written rs ++ runes.blank ∷ [])
  wrap_from-content [] l word width =
      unfold wrap_from in
      final-content l word 0 width ∙ sym (append_assoc (content l) word (runes.blank ∷ []))
  wrap_from-content (r ∷ rs) l word width =
      let tail = map written rs ++ runes.blank ∷ [] in
      let m = flush_word_and_spaces runes l word 1 width in
      let (long, rest) = maybe_wrap_long_word runes l (word ++ r ∷ []) width in
      elim (Bool-cases (runes.is_space r)) [
        | inl e ↦
            ap joined_lines (wrap_from_space r rs l word width e)
            ∙ wrap_from-content rs m [] width
            ∙ ap (λ xs. xs ++ tail) (append-nil (content m) ∙ flush-content l word 1 width)
            ∙ regroup (content l) word runes.blank tail
            ∙ ap (λ x. (content l ++ word) ++ x ∷ tail) (written_space r e)
        | inr e ↦
            ap joined_lines (wrap_from_other r rs l word width e)
            ∙ wrap_from-content rs long rest width
            ∙ ap (λ xs. xs ++ tail) (long_word-content l (word ++ r ∷ []) width)
            ∙ regroup (content l) word r tail
            ∙ ap (λ x. (content l ++ word) ++ x ∷ tail) (written_other r e)
      ]

-- Whatever the widths are, the wrapped lines one after the other are the runes of the line, each
-- once and in order, with every space as a blank, and one blank more at the end.
pub wrap_keeps_runes :
    {R : Type 0} (runes : Runes R) (line : List R) (width : ℕ)
    → joined_lines (wrap_textarea_line runes line width)
      ≡ map (written runes) line ++ runes.blank ∷ []
unfolding wrap_textarea_line
wrap_keeps_runes runes line width =
    wrap_from-content runes line (record { above = []; row = [] }) [] width
