-- ===== src/Interpreter/Loop/Trace.antt =====
-- internal/interpreter/workflow_loop.go: a history of the loop workflow, as a list of calls.
use coderoom.Prelude.{List, [], ◌∷◌, ◌++◌, String}
use coderoom.Session.Event.{Event}
use coderoom.PromptLang.{Loop}
use coderoom.PromptLang.Registry.{Registry}
use coderoom.Interpreter.{Instruction, SessionCompletion, ShellCompletion}
use coderoom.Interpreter.Loop.{LoopWorkflow, start, handle_session_event}
use coderoom.Interpreter.Loop.Completion.{handle_session_completion, handle_shell_completion}

pub data LoopCall : Type 0 where
  starts : String → Loop → Registry → LoopCall
  sees : Event → LoopCall
  session_completes : SessionCompletion → LoopCall
  shell_completes : ShellCompletion → LoopCall

unfoldable pub call : LoopCall → LoopWorkflow → LoopWorkflow × List Instruction
unfolding start handle_session_event handle_session_completion handle_shell_completion
call (starts raw statement commands) w = start raw statement commands w
call (sees e) w = handle_session_event e w
call (session_completes c) w = handle_session_completion c w
call (shell_completes c) w = handle_shell_completion c w

-- The workflow after the calls, and all that it asked for, in order.
unfoldable pub run : List LoopCall → LoopWorkflow → LoopWorkflow × List Instruction
run [] w = (w, [])
run (c ∷ cs) w = let (v, out) = call c w in let (u, more) = run cs v in (u, out ++ more)
