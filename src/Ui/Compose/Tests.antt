-- ===== src/Ui/Compose/Tests.antt =====
-- internal/ui/room/compose/wrap.go: a line of numbers, where 0 is a space and every rune is one wide.
use coderoom.Prelude.{ℕ, ◌≡◌, refl, List, [], ◌∷◌, ◌++◌, map, length, ◌==◌, nat_eq}
use coderoom.Ui.Compose.{
  Runes, wrap_textarea_line, wrap_from, flush_word_and_spaces, maybe_wrap_long_word,
  append_final_word,
}
use coderoom.Ui.Compose.Content.{joined_lines, written, wrap_keeps_runes}

abbrev plain : Runes ℕ
plain = record {
  is_space = λ r. r == 0;
  is_newline = λ r. r == 10;
  blank = 0;
  rune_width = λ r. 1;
  string_width = length;
}

abbrev words : List ℕ
words = 1 ∷ 2 ∷ 0 ∷ 3 ∷ 4 ∷ 5 ∷ []

wrapped : wrap_textarea_line plain words 5 ≡ (1 ∷ 2 ∷ 0 ∷ []) ∷ (3 ∷ 4 ∷ 5 ∷ 0 ∷ []) ∷ []
unfolding wrap_textarea_line wrap_from flush_word_and_spaces maybe_wrap_long_word append_final_word
wrapped = refl

wrap_keeps_runes_example :
    joined_lines (wrap_textarea_line plain words 5) ≡ map (written plain) words ++ 0 ∷ []
wrap_keeps_runes_example = wrap_keeps_runes plain words 5
