-- ===== src/Interpreter/Tests.antt =====
-- internal/interpreter at concrete histories.
use coderoom.Prelude.Dict
use coderoom.Prelude.Int.{pos}
use coderoom.Prelude.{ℕ, ◌+◌, ◌≤◌, ◌≡◌, refl, false, none, some, List, [], ◌∷◌, ◌++◌, arith}
use coderoom.Participant.{working, idle}
use coderoom.Session.Event.{status_changed}
use coderoom.PromptLang.{Loop}
use coderoom.PromptLang.Registry.{Registry, resolve}
use coderoom.Interpreter.{
  WorkflowRef, loop_workflow, ShellResult, failure, SessionCompletion, ShellCompletion,
}
use coderoom.Interpreter.Loop.{new_loop, start, handle_session_event, handle_waiting_event}
use coderoom.Interpreter.Loop.Completion.{handle_session_completion, handle_shell_completion}
use coderoom.Interpreter.Loop.Trace.{
  LoopCall, starts, sees, session_completes, shell_completes, run, call,
}
use coderoom.Interpreter.Loop.Bound.{prompts_bounded, sent, own_bound}
use coderoom.Interpreter.Loop.Refs.{requests_numbered}
use coderoom.Interpreter.Requests.{request_ids, count_from}
use coderoom.Interpreter.Loop.Answers.{submissions_answered, accepted, owed}
use coderoom.Interpreter.Submissions.{answered}
use coderoom.Interpreter.Loop.Ends.{failing_loop_ends, failing_turns}

abbrev commands : Registry
commands = record {
  definitions = ("check", record { name = "check"; body = record { program = "make test" } }) ∷ [];
}

abbrev fix_it : Loop
fix_it = record { participant = "ada"; prompt = "fix it"; condition = "check"; max_turns = 2 }

abbrev ref : ℕ → WorkflowRef
ref id = record { kind = loop_workflow; generation = 1; request_id = id }

abbrev failing : ShellResult
failing = record {
  status = failure;
  exit_code = some (pos 1);
  stdout = "";
  stderr = "no";
  err = none;
}

abbrev delivered : ℕ → SessionCompletion
delivered id = record { target = ref id; err = none; success_records_applied = false }

abbrev checked : ℕ → ShellCompletion
checked id = record {
  target = ref id;
  request = record { command = "/check"; program = "make test" };
  result = failing;
  cwd = "";
}

abbrev history : List LoopCall
history =
    starts "raw" fix_it commands
    ∷ session_completes (delivered 1)
    ∷ sees (status_changed (record { alias = "ada"; from = working; to = idle; since = 0 }))
    ∷ shell_completes (checked 2)
    ∷ session_completes (delivered 1)
    ∷ session_completes (delivered 3)
    ∷ []

-- The first loop reaches its bound, and one with the bound one follows.
abbrev fix_once : Loop
fix_once = record fix_it { max_turns = 1 }

abbrev two_loops : List LoopCall
two_loops =
    history
    ++ sees (status_changed (record { alias = "ada"; from = working; to = idle; since = 0 }))
      ∷ shell_completes (checked 4)
      ∷ starts "again" fix_once commands
      ∷ []

second_loop :
    (sent 1 (run two_loops new_loop).1 ≡ 2)
    × (sent 2 (run two_loops new_loop).1 ≡ 1)
    × (own_bound 2 two_loops new_loop ≡ 1)
unfolding run call start handle_session_event handle_waiting_event handle_session_completion
    handle_shell_completion resolve Dict.get
second_loop = (refl, refl, refl)

prompts_bounded_example : sent 2 (run two_loops new_loop).1 ≤ own_bound 2 two_loops new_loop
prompts_bounded_example =
    prompts_bounded 2 two_loops
      (omega arith, (tt, (tt, (tt, (tt, (tt, (tt, (tt, (omega arith, tt)))))))))

requests_numbered_example :
    request_ids (run history new_loop).1 ≡ count_from 0 (run history new_loop).0.next_request_id
requests_numbered_example = requests_numbered history

submissions_answered_example :
    accepted (run history new_loop).1
    ≡ answered (run history new_loop).1 + owed (run history new_loop).0.active
submissions_answered_example = submissions_answered history

failing_loop_ends_example :
    (failing_turns 2 "ada" failing (start "raw" fix_it commands new_loop).0).active ≡ none
unfolding resolve Dict.get
failing_loop_ends_example =
    failing_loop_ends "raw" fix_it commands (record { program = "make test" }) failing new_loop refl
      refl (omega arith)
