-- ===== src/PromptLang/Parse.antt =====
-- internal/promptlang/parse.go: one line of input into a statement.
use Prim.Native.Char.{code}
use Prim.Native.String.{String}
use coderoom.Prelude.Results.{Result, ok, err, ◌>>=◌}
use coderoom.Prelude.{
  ℕ, Bool, not, ◌||◌, Option, none, some, List, [], ◌∷◌, ◌==◌, string_eq, nat_eq, if◌then◌else◌,
}
use coderoom.Policy.{send_notices, echo_invites}
use coderoom.PromptLang.{
  Statement, Loop, invite, remove, cancel, handoff, send, broadcast, policy_enable, shell_statement,
  define, invoke, loop, who, help, quit, debug_view, debug_rows,
}
use coderoom.PromptLang.Scan.{
  trim_space, cut_token, pop_token, cut_space, fields, is_identifier, is_reserved_command,
  parse_positive_integer,
}

-- The formatted errors, by what they say.
pub data ParseError : Type 0 where
  input_is_empty usage_shell usage_policy invalid_loop_participant usage_loop : ParseError
  invalid_loop_condition invalid_positive_integer invalid_name usage_def : ParseError
  usage_handoff usage_send : ParseError
  usage_alias no_arguments unknown_command : String → ParseError

abbrev pub Parsed : Type 0
Parsed = Result ParseError Statement

-- `strings.TrimPrefix` after a successful `strings.HasPrefix`, of one byte
unfoldable pub strip : ℕ → String → Option String
strip b String.[] = none
strip b (String.◌∷◌ c s) = if code c == b then some s else none

abbrev pub no_arg_commands : String → Option Statement
no_arg_commands cmd =
    if cmd == "/who"
    then some who
    else if cmd == "/help"
    then some help
    else if cmd == "/quit"
    then some quit
    else if cmd == "/debugview"
    then some debug_view
    else if cmd == "/debugrows"
    then some debug_rows
    else none

abbrev pub is_known_policy : String → Bool
is_known_policy name = name == send_notices || name == echo_invites

unfoldable pub parse_policy : String → Parsed
parse_policy rest =
    let (action, name) = cut_token rest in
    if not (action == "enable") || not (is_known_policy (trim_space name))
    then err usage_policy
    else ok (policy_enable (trim_space name))

unfoldable pub parse_runtime_command : String → String → Parsed
parse_runtime_command cmd rest =
    if cmd == "/policy"
    then parse_policy rest
    else if rest == ""
    then err usage_shell
    else ok (shell_statement (record { program = rest }))

-- `parseCommandReference` and the test of a loop's participant: a prefix and an identifier.
unfoldable pub parse_command_reference : String → Result ParseError String
parse_command_reference reference = elim (strip b'/' reference) [
  | none ↦ err invalid_loop_condition
  | some name ↦
      if not (is_identifier name) || is_reserved_command name
      then err invalid_loop_condition
      else ok name
]

unfoldable pub parse_loop_participant : String → Result ParseError String
parse_loop_participant reference = elim (strip b'@' reference) [
  | none ↦ err invalid_loop_participant
  | some name ↦ if not (is_identifier name) then err invalid_loop_participant else ok name
]

abbrev pub turns_of : Option ℕ → Result ParseError ℕ
turns_of none = err invalid_positive_integer
turns_of (some n) = ok n

-- The loop that a suffix gives, from its four pieces.
unfoldable pub finish_loop_suffix : String → String → String → String → Result ParseError Loop
finish_loop_suffix participant prompt reference turns =
    parse_command_reference reference >>= λ condition.
    turns_of (parse_positive_integer turns) >>= λ max_turns. ok (record {
      participant = participant;
      prompt = trim_space prompt;
      condition = condition;
      max_turns = max_turns;
    })

unfoldable pub parse_loop_suffix : String → String → Result ParseError Loop
parse_loop_suffix participant input =
    let (r1, turns) = pop_token input in
    let (r2, max_keyword) = pop_token r1 in
    let (r3, reference) = pop_token r2 in
    let (prompt, until_keyword) = pop_token r3 in
    if not (max_keyword == "/max") || (not (until_keyword == "/until") || trim_space prompt == "")
    then err usage_loop
    else finish_loop_suffix participant prompt reference turns

unfoldable pub parse_loop : String → Parsed
parse_loop rest =
    let (reference, remainder) = cut_token rest in
    parse_loop_participant reference >>= λ participant.
    parse_loop_suffix participant remainder >>= λ l. ok (loop l)

unfoldable pub parse_definition : String → Parsed
parse_definition rest =
    let (name, body) = cut_token rest in
    let (body_command, program) = cut_token (trim_space body) in
    if not (is_identifier name)
    then err invalid_name
    else if not (body_command == "/shell") || trim_space program == ""
    then err usage_def
    else ok (define (record { name = name; body = record { program = trim_space program } }))

unfoldable pub parse_alias_statement : String → String → Parsed
parse_alias_statement cmd alias =
    if alias == ""
    then err (usage_alias cmd)
    else if cmd == "/invite"
    then ok (invite alias)
    else if cmd == "/remove"
    then ok (remove alias)
    else ok (cancel alias)

-- The test on the number of fields.
abbrev pub handoff_of : List String → Parsed
handoff_of (a ∷ b ∷ []) = ok (handoff a b)
handoff_of _ = err usage_handoff

unfoldable pub parse_handoff : String → Parsed
parse_handoff rest = handoff_of (fields rest)

unfoldable pub parse_invocation : String → String → Parsed
parse_invocation cmd rest = elim (strip b'/' cmd) [
  | none ↦ err (unknown_command cmd)
  | some name ↦
      if not (rest == "") || (not (is_identifier name) || is_reserved_command name)
      then err (unknown_command cmd)
      else ok (invoke (record { name = name }))
]

-- The `switch` of `parseSlash`.
unfoldable pub parse_command : String → String → Parsed
parse_command cmd rest =
    if cmd == "/invite" || (cmd == "/remove" || cmd == "/cancel")
    then parse_alias_statement cmd rest
    else if cmd == "/handoff"
    then parse_handoff rest
    else if cmd == "/shell" || cmd == "/policy"
    then parse_runtime_command cmd rest
    else if cmd == "/def"
    then parse_definition rest
    else if cmd == "/loop"
    then parse_loop rest
    else parse_invocation cmd rest

unfoldable pub parse_slash : String → Parsed
parse_slash line =
    let (cmd, arguments) = cut_token line in
    let rest = trim_space arguments in
    elim (no_arg_commands cmd) [
      | some statement ↦ if not (rest == "") then err (no_arguments cmd) else ok statement
      | none ↦ parse_command cmd rest
    ]

unfoldable pub parse_send : String → Parsed
parse_send rest = elim (cut_space rest) [
  | none ↦ err usage_send
  | some (alias, text) ↦
      if trim_space alias == "" || trim_space text == ""
      then err usage_send
      else ok (send (trim_space alias) (trim_space text))
]

unfoldable pub parse_trimmed : String → Parsed
parse_trimmed line = if line == "" then err input_is_empty else elim (strip b'/' line) [
  | some rest ↦ parse_slash line
  | none ↦ elim (strip b'@' line) [ some rest ↦ parse_send rest | none ↦ ok (broadcast line) ]
]

unfoldable pub parse : String → Parsed
parse line = parse_trimmed (trim_space line)
