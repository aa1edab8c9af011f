-- ===== src/PromptLang/Soundness.antt =====
-- internal/promptlang/parse.go: what the statements that `Parse` gives have in common.
use coderoom.Prelude.Results.{Result, ok, err, chain_cases}
use coderoom.Prelude.{
  ℕ, ◌≤◌, ◌<◌, String, ◌≡◌, ◌≢◌, subst, true, false, not, ◌||◌, none, List, [], ◌∷◌, ◌==◌,
  string_eq, nat_eq, if_cases, arith, All, inl, inr, Option-cases,
}
use coderoom.PromptLang.{
  Statement, Loop, invite, remove, cancel, handoff, send, broadcast, policy_enable, shell_statement,
  define, invoke, loop,
}
use coderoom.PromptLang.Scan.{
  trim_space, cut_token, pop_token, cut_space, fields, is_identifier, is_reserved_command,
  parse_positive_integer, max_int,
}
use coderoom.PromptLang.Parse.{
  Parsed, ParseError, strip, is_known_policy, parse_policy, parse_runtime_command,
  parse_command_reference, parse_loop_participant, turns_of, finish_loop_suffix, parse_loop_suffix,
  parse_loop, parse_definition, parse_alias_statement, parse_handoff, handoff_of, parse_invocation,
  parse_command, parse_slash, parse_send, parse_trimmed, parse,
}
use coderoom.PromptLang.Trim.{trim_space_idem, IsField, fields-All}

-- A text that is not empty and has no space at either end.
abbrev pub Clean : String → Type 0
Clean s = (trim_space s ≡ s) × (s ≢ "")

pub record WellFormedLoop (l : Loop) : Type 0 where
  pub participant : is_identifier l.participant ≡ true
  pub prompt : Clean l.prompt
  pub condition : is_identifier l.condition ≡ true
  pub not_built_in : is_reserved_command l.condition ≡ false
  pub at_least_one : 0 < l.max_turns
  pub representable : l.max_turns ≤ max_int

abbrev pub WellFormed : Statement → Type 0
WellFormed (invite a) = Clean a
WellFormed (remove a) = Clean a
WellFormed (cancel a) = Clean a
WellFormed (handoff a b) = IsField a × IsField b
WellFormed (send a t) = Clean a × Clean t
WellFormed (broadcast t) = Clean t × ((strip b'/' t ≡ none) × (strip b'@' t ≡ none))
WellFormed (policy_enable n) = is_known_policy n ≡ true
WellFormed (shell_statement s) = Clean s.program
WellFormed (define d) = (is_identifier d.name ≡ true) × Clean d.body.program
WellFormed (invoke i) = (is_identifier i.name ≡ true) × (is_reserved_command i.name ≡ false)
WellFormed (loop l) = WellFormedLoop l
WellFormed _ = Unit

abbrev Sound : Parsed → Type 0
Sound (ok st) = WellFormed st
Sound (err e) = Unit

Clean-trim_space : (s : String) → (trim_space s == "") ≡ false → Clean (trim_space s)
Clean-trim_space s h = (trim_space_idem s, ground (arith, string_eq.eqb_iff (trim_space s) ""))

parse_policy-Sound : (rest : String) → Sound (parse_policy rest)
unfolding parse_policy
parse_policy-Sound rest = ground arith

parse_runtime_command-Sound :
    (cmd rest : String) → trim_space rest ≡ rest → Sound (parse_runtime_command cmd rest)
unfolding parse_runtime_command
parse_runtime_command-Sound cmd rest t =
    ground (arith, parse_policy-Sound rest, string_eq.eqb_iff rest "")

parse_definition-Sound : (rest : String) → Sound (parse_definition rest)
unfolding parse_definition
parse_definition-Sound rest =
    let program = (cut_token (trim_space (cut_token rest).1)).1 in
    ground (arith, trim_space_idem program, string_eq.eqb_iff (trim_space program) "")

parse_alias_statement-Sound :
    (cmd alias : String) → trim_space alias ≡ alias → Sound (parse_alias_statement cmd alias)
unfolding parse_alias_statement
parse_alias_statement-Sound cmd alias t = ground (arith, string_eq.eqb_iff alias "")

handoff_of-Sound : (fs : List String) → All IsField fs → Sound (handoff_of fs)
handoff_of-Sound (a ∷ b ∷ []) v = (v.0, v.1.0)
handoff_of-Sound _ v = tt

parse_handoff-Sound : (rest : String) → Sound (parse_handoff rest)
unfolding parse_handoff
parse_handoff-Sound rest = handoff_of-Sound (fields rest) (fields-All rest)

parse_invocation-Sound : (cmd rest : String) → Sound (parse_invocation cmd rest)
unfolding parse_invocation
parse_invocation-Sound cmd rest = ground arith

parse_send-Sound : (rest : String) → Sound (parse_send rest)
unfolding parse_send
parse_send-Sound rest = elim (Option-cases (cut_space rest)) [
  | inl e ↦ rw (e, Sound) tt
  | inr ((alias, text), e) ↦ ground (
    arith,
    trim_space_idem alias,
    trim_space_idem text,
    string_eq.eqb_iff (trim_space alias) "",
    string_eq.eqb_iff (trim_space text) "",
  )
]

parse_loop_participant-Sound :
    (reference name : String)
    → parse_loop_participant reference ≡ ok name
    → is_identifier name ≡ true
unfolding parse_loop_participant
parse_loop_participant-Sound reference name h = ground arith

parse_command_reference-Sound :
    (reference name : String)
    → parse_command_reference reference ≡ ok name
    → (is_identifier name ≡ true) × (is_reserved_command name ≡ false)
unfolding parse_command_reference
parse_command_reference-Sound reference name h = ground arith

parse_positive_integer-bounds :
    (s : String) (n : ℕ) → turns_of (parse_positive_integer s) ≡ ok n → (0 < n) × (n ≤ max_int)
unfolding parse_positive_integer
parse_positive_integer-bounds s n h = ground arith

abbrev SoundLoop : Result ParseError Loop → Type 0
SoundLoop (ok l) = WellFormedLoop l
SoundLoop (err e) = Unit

finish_loop_suffix-Sound :
    (participant prompt reference turns : String)
    → is_identifier participant ≡ true
    → (trim_space prompt == "") ≡ false
    → SoundLoop (finish_loop_suffix participant prompt reference turns)
unfolding finish_loop_suffix
finish_loop_suffix-Sound participant prompt reference turns named some_text =
    chain_cases SoundLoop (parse_command_reference reference)
      (λ c h.
        chain_cases SoundLoop (turns_of (parse_positive_integer turns))
          (λ n k. record {
            participant = named;
            prompt = Clean-trim_space prompt some_text;
            condition = (parse_command_reference-Sound reference c h).0;
            not_built_in = (parse_command_reference-Sound reference c h).1;
            at_least_one = (parse_positive_integer-bounds turns n k).0;
            representable = (parse_positive_integer-bounds turns n k).1;
          })
          (λ e. tt))
      (λ e. tt)

parse_loop_suffix-Sound :
    (participant input : String)
    → is_identifier participant ≡ true
    → SoundLoop (parse_loop_suffix participant input)
unfolding parse_loop_suffix
parse_loop_suffix-Sound participant input named =
    let (r1, turns) = pop_token input in
    let (r2, max_keyword) = pop_token r1 in
    let (r3, reference) = pop_token r2 in
    let (prompt, until_keyword) = pop_token r3 in
    if_cases SoundLoop
      (not (max_keyword == "/max") || (not (until_keyword == "/until") || trim_space prompt == ""))
      {x = err ParseError.usage_loop} {y = finish_loop_suffix participant prompt reference turns}
      (λ h. tt)
      (λ h. finish_loop_suffix-Sound participant prompt reference turns named (ground arith))

parse_loop-Sound : (rest : String) → Sound (parse_loop rest)
unfolding parse_loop
parse_loop-Sound rest =
    let (reference, remainder) = cut_token rest in
    chain_cases Sound (parse_loop_participant reference)
      (λ p h.
        chain_cases Sound (parse_loop_suffix p remainder)
          (λ l k.
            subst SoundLoop k
              (parse_loop_suffix-Sound p remainder (parse_loop_participant-Sound reference p h)))
          (λ e. tt))
      (λ e. tt)

parse_command-Sound : (cmd rest : String) → trim_space rest ≡ rest → Sound (parse_command cmd rest)
unfolding parse_command
parse_command-Sound cmd rest t = ground (
  arith,
  parse_alias_statement-Sound cmd rest t,
  parse_handoff-Sound rest,
  parse_runtime_command-Sound cmd rest t,
  parse_definition-Sound rest,
  parse_loop-Sound rest,
  parse_invocation-Sound cmd rest,
)

parse_slash-Sound : (line : String) → Sound (parse_slash line)
unfolding parse_slash
parse_slash-Sound line =
    let (cmd, arguments) = cut_token line in
    ground (arith, parse_command-Sound cmd (trim_space arguments) (trim_space_idem arguments))

parse_trimmed-Sound : (line : String) → trim_space line ≡ line → Sound (parse_trimmed line)
unfolding parse_trimmed
parse_trimmed-Sound line t = elim (Option-cases (strip b'/' line)) [
  | inl e ↦ elim (Option-cases (strip b'@' line)) [
    | inl e' ↦ ground (arith, string_eq.eqb_iff line "")
    | inr (rest, e') ↦ ground (arith, parse_send-Sound rest)
  ]
  | inr (rest, e) ↦ ground (arith, parse_slash-Sound line)
]

-- Whatever the line, a statement that `Parse` accepts is well formed. The names in a definition and
-- an invocation, and a loop's participant and condition, are identifiers. The alias of an invite, a
-- remove, a cancel or a send is only trimmed and not empty, so it may have a space inside or be no
-- identifier; the aliases of a handoff are not empty and have no white space. Texts and programs are
-- trimmed and not empty, and a broadcast begins with neither `/` nor `@`. An invocation's name and a
-- loop's condition are no built-in command, a loop's bound is a positive `int`, and a policy is a
-- known one.
pub parse-WellFormed : (line : String) (st : Statement) → parse line ≡ ok st → WellFormed st
unfolding parse
parse-WellFormed line st h =
    subst Sound h (parse_trimmed-Sound (trim_space line) (trim_space_idem line))
