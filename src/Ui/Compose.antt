-- ===== src/Ui/Compose.antt =====
-- internal/ui/room/compose/wrap.go: how the composer wraps a line. The widths of runes and of texts,
-- which third-party packages compute, are parameters, and so are the runes. `lines[row]` is always the
-- last line, so the lines are those above it and the row.
pub mod Content
mod Tests
use coderoom.Prelude.Int.{ℤ, pos, negsuc}
use coderoom.Prelude.{
  ℕ, zero, suc, ◌+◌, Bool, true, false, not, List, [], ◌∷◌, ◌++◌, length, leb, ltb, if◌then◌else◌,
}

pub record Runes (R : Type 0) : Type 0 where
  pub is_space : R → Bool
  pub is_newline : R → Bool
  pub blank : R
  pub rune_width : R → ℕ
  pub string_width : List R → ℕ

pub record Lines (R : Type 0) : Type 0 where
  pub above : List (List R)
  pub row : List R

module _ {R : Type 0} where
  abbrev pub is_empty : List R → Bool
  is_empty [] = true
  is_empty (_ ∷ _) = false

  abbrev pub all_lines : Lines R → List (List R)
  all_lines l = l.above ++ l.row ∷ []

  -- `row++` with a new line of these runes
  abbrev pub next_line : List R → Lines R → Lines R
  next_line runes l = record { above = l.above ++ l.row ∷ []; row = runes }

module _ {R : Type 0} (runes : Runes R) where
  abbrev pub repeat_spaces : ℕ → List R
  repeat_spaces zero = []
  repeat_spaces (suc n) = runes.blank ∷ repeat_spaces n

  unfoldable pub flush_word_and_spaces : Lines R → List R → ℕ → ℕ → Lines R
  flush_word_and_spaces l word spaces width =
      if ltb width (runes.string_width l.row + runes.string_width word + spaces)
      then next_line (word ++ repeat_spaces spaces) l
      else record l { row = l.row ++ (word ++ repeat_spaces spaces) }

  abbrev last_width : List R → ℕ
  last_width [] = 0
  last_width (r ∷ []) = runes.rune_width r
  last_width (r ∷ s ∷ rs) = last_width (s ∷ rs)

  -- The lines and what is left of the word
  unfoldable pub maybe_wrap_long_word : Lines R → List R → ℕ → Lines R × List R
  maybe_wrap_long_word l word width =
      if is_empty word
      then (l, word)
      else if ltb width (runes.string_width word + last_width word)
      then ((if is_empty l.row then record l { row = l.row ++ word } else next_line word l), [])
      else (l, word)

  unfoldable pub append_final_word : Lines R → List R → ℕ → ℕ → List (List R)
  append_final_word l word spaces width =
      if leb width (runes.string_width l.row + runes.string_width word + spaces)
      then all_lines (next_line (word ++ repeat_spaces (suc spaces)) l)
      else all_lines (record l { row = l.row ++ (word ++ repeat_spaces (suc spaces)) })

  -- The loop over the runes; `spaces` is zero between its turns.
  unfoldable pub wrap_from : List R → Lines R → List R → ℕ → List (List R)
  unfolding flush_word_and_spaces maybe_wrap_long_word append_final_word
  wrap_from [] l word width = append_final_word l word 0 width
  wrap_from (r ∷ rs) l word width = elim (runes.is_space r) [
    | true ↦ wrap_from rs (flush_word_and_spaces l word 1 width) [] width
    | false ↦
        let (m, rest) = maybe_wrap_long_word l (word ++ r ∷ []) width in wrap_from rs m rest width
  ]

  unfoldable pub wrap_textarea_line : List R → ℕ → List (List R)
  unfolding wrap_from
  wrap_textarea_line line width = wrap_from line (record { above = []; row = [] }) [] width

  unfoldable pub count_wrapped_rows : List R → ℤ → ℕ
  unfolding wrap_textarea_line
  count_wrapped_rows line (pos zero) = 1
  count_wrapped_rows line (pos (suc w)) = length (wrap_textarea_line line (suc w))
  count_wrapped_rows line (negsuc w) = 1

  -- `strings.SplitSeq(text, "\n")`: the first line and those after it
  unfoldable pub split_lines : List R → List R × List (List R)
  split_lines [] = ([], [])
  split_lines (r ∷ rs) =
      let (line, more) = split_lines rs in
      if runes.is_newline r then ([], line ∷ more) else (r ∷ line, more)

  abbrev total_rows : List (List R) → ℕ → ℕ
  unfolding count_wrapped_rows
  total_rows [] w = 0
  total_rows (line ∷ more) w = count_wrapped_rows line (pos w) + total_rows more w

  abbrev at_least_one : ℕ → ℕ
  at_least_one zero = 1
  at_least_one (suc n) = suc n

  unfoldable pub count_visual_rows : List R → ℤ → ℕ
  unfolding split_lines total_rows
  count_visual_rows text (pos zero) = suc (length (split_lines text).1)
  count_visual_rows text (negsuc w) = suc (length (split_lines text).1)
  count_visual_rows text (pos (suc w)) =
      let (line, more) = split_lines text in at_least_one (total_rows (line ∷ more) (suc w))
