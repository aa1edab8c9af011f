-- ===== src/PromptLang/Tests.antt =====
-- internal/promptlang at concrete lines.
use coderoom.Prelude.Sets
use coderoom.Prelude.{◌≡◌, refl}
use coderoom.Prelude.Results.{ok}
use coderoom.PromptLang.{CommandDefinition, Loop, invite, loop}
use coderoom.PromptLang.Scan.{
  is_identifier, is_reserved_command, identifier_rest, trim_space, trim_left, trim_right, cut_token,
  pop_token, cut_last, parse_positive_integer, all_digits, decimal_value,
}
use coderoom.PromptLang.Parse.{
  parse, parse_trimmed, parse_slash, parse_command, parse_loop, parse_loop_participant,
  parse_loop_suffix, finish_loop_suffix, parse_command_reference, parse_alias_statement, strip,
}
use coderoom.PromptLang.Soundness.{WellFormed, parse-WellFormed}

abbrev pub check : CommandDefinition
check = record { name = "check"; body = record { program = "make test" } }

abbrev other : CommandDefinition
other = record { name = "check"; body = record { program = "true" } }

abbrev fix_it : Loop
fix_it = record { participant = "ada"; prompt = "fix  it"; condition = "check"; max_turns = 3 }

-- An alias may have a space inside.
alias_with_space : parse "/invite a b" ≡ ok (invite "a b")
unfolding parse parse_trimmed parse_slash parse_command strip trim_space trim_left trim_right
    cut_token parse_alias_statement
alias_with_space = refl

parse-WellFormed_example : WellFormed (loop fix_it)
unfolding parse parse_trimmed parse_slash parse_command parse_loop parse_loop_participant
    parse_loop_suffix finish_loop_suffix parse_command_reference strip trim_space trim_left
    trim_right cut_token pop_token cut_last parse_positive_integer all_digits decimal_value
    is_identifier identifier_rest is_reserved_command Sets.contains
parse-WellFormed_example =
    parse-WellFormed " /loop @ada  fix  it /until /check /max 3 " (loop fix_it) refl
