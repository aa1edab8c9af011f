-- ===== src/Interpreter/Evidence.antt =====
-- internal/interpreter/workflow_loop.go: the texts that a loop's condition gives.
use coderoom.Prelude.Int.{ℤ}
use coderoom.Prelude.Text.{concat_text, join_text, itoa}
use coderoom.Prelude.{String, Option, none, some, [], ◌∷◌, ◌==◌, string_eq, if◌then◌else◌}
use coderoom.PromptLang.{Loop}
use coderoom.Interpreter.{ShellStatus, success, failure, cancelled, ShellResult}

abbrev pub status_text : ShellStatus → String
status_text success = "success"
status_text failure = "failure"
status_text cancelled = "cancelled"

abbrev pub format_exit_code : Option ℤ → String
format_exit_code none = "(none)"
format_exit_code (some code) = itoa code

abbrev pub format_evidence : String → String
format_evidence text = if text == "" then "(none)" else text

abbrev pub error_text : Option String → String
error_text none = ""
error_text (some e) = e

unfoldable pub format_loop_prompt : Loop → ShellResult → String
format_loop_prompt statement result = join_text "\n" (
    statement.prompt
    ∷ ""
    ∷ "The completion condition is failing. Continue working on the task using the evidence below."
    ∷ ""
    ∷ concat_text ("Condition command: /" ∷ statement.condition ∷ [])
    ∷ concat_text ("Status: " ∷ status_text result.status ∷ [])
    ∷ concat_text ("Exit code: " ∷ format_exit_code result.exit_code ∷ [])
    ∷ concat_text ("Stdout:\n" ∷ format_evidence result.stdout ∷ [])
    ∷ concat_text ("Stderr:\n" ∷ format_evidence result.stderr ∷ [])
    ∷ concat_text ("Error:\n" ∷ format_evidence (error_text result.err) ∷ [])
    ∷ [])

unfoldable pub format_loop_condition_result : ShellResult → String
format_loop_condition_result result = join_text "\n" (
    concat_text ("status: " ∷ status_text result.status ∷ [])
    ∷ concat_text ("exit code: " ∷ format_exit_code result.exit_code ∷ [])
    ∷ concat_text ("stdout:\n" ∷ format_evidence result.stdout ∷ [])
    ∷ concat_text ("stderr:\n" ∷ format_evidence result.stderr ∷ [])
    ∷ concat_text ("error:\n" ∷ format_evidence (error_text result.err) ∷ [])
    ∷ [])
