-- ===== src/Lib.antt =====
-- Coderoom: a room in which a user and several coding agents talk. This library models the parts of
-- the program that keep its state, translated from the Go code, and proves what makes them correct.
--
-- The parts and how they interact. A participant (internal/participant) is the lifecycle of one
-- agent; the session (internal/session) executes the commands, moves the participants through their
-- turns, shows one approval request at a time, and reports what happens as events. The
-- room (internal/room) projects those events into the records that the user sees, and gives each
-- reader the difference since the version that it has. Messages of the agents (internal/agent) come
-- in fragments, which the room accumulates into records. Queues (internal/queue) stand between the
-- parts that run on their own, and the lines that an agent's process prints are gathered into
-- batches (internal/linestream). A room's policies (internal/policy) are switches. A line that the
-- user types is parsed (internal/promptlang) and submitted to the interpreter (internal/interpreter),
-- whose workflows are told what happens and answer with instructions.
--
-- The files:
--   Prelude: the names that all share. Dict is a Go map as an association list, Sets a map to
--     `struct{}`, Sort the sorting and compaction of slices, Int the native integers, Text the texts.
--   Participant: participant.go, one function for each method; Participant.Calls makes the methods one
--     type, Graph, Invariant and Turns are about it. Participant.Registry is registry.go, and
--     Participant.Registry.Colors the allocator of colors.go.
--   Policy: policy.go.
--   Queue: queue.go; each branch of a `select` is an action, and an execution a list of actions.
--   LineStream: linestream.go; each branch of the loop's `select` is an event.
--   Agent: the messages of agent.go and how they accumulate; Agent.Wait is `SendAndWait`. Agent.Codex
--     is codex/notice.go, with the decoder of an acknowledgement as a parameter; Codex.Envelopes reads
--     the envelopes of a turn, Codex.Relay is about an answer under way, and Codex.Answers about what is
--     passed on. Codex.Messages is codex/rpc_messages.go, and Codex.Items about the messages of
--     one command.
--   Session: Event is event.go. State, Turns, Runtime and Background are session.go and the startup
--     goroutine of command_lifecycle.go; Sends is command_send.go and command.go, Handoff is
--     command_handoff.go, Commands is the rest of command_lifecycle.go and command_policy.go. History makes
--     a session's life a list of commands and of steps beside them; Identity and Completion are about the
--     turns. Approvals is approvals.go and command_approval.go.
--   Room: records, projection, handoff sources, deltas and snapshots, a file for each group of Go
--     files: Records (record.go, filechange.go, state.go), Projection (events.go, observer.go,
--     room.go), Handoff (handoff.go), Delta (delta.go, snapshot.go). Frame, Steps and History say what
--     an operation leaves alone; Sync, Available, Streams, Marks and Sources are about histories.
--   PromptLang: the statements of action.go; Scan and Parse are parse.go, Registry is registry.go.
--     Trim and Soundness are about them.
--   Interpreter: the instructions of workflow_instruction.go, the events of types.go. Interpreter.Loop
--     and Loop.Completion are workflow_loop.go, with its texts in Interpreter.Evidence; Loop.Trace makes
--     a history a list of calls, and Bound, Refs, Answers and Ends are about histories.
--     Interpreter.Barrier and Interpreter.Stage are workflow_stage.go: who is waited for, then the stage
--     with its Planning, its Waiting and its Completion; Stage.Trace makes a history a list of calls, and
--     Waits, Recipients, Numbers and Replies are about histories.
--     Interpreter.Approval is approval.go: the request that the front end shows, with Mirror and Agree
--     about the session's hub and the interpreter together.
--     Interpreter.Model is model.go, transcript.go and workflow_collection.go, with the submissions of
--     command_*.go in Model.Submit and the operations of submit.go and stage_operations.go in
--     Model.Operations; Model.Transcript is about the reader of its changes.
--     Interpreter.Runner is instruction_runner.go over its two ports as a record, and Runner.Order
--     about its queue; Model.Host fills the model's port. Interpreter.Inbox is
--     session_event_inbox.go; Interpreter.Executor is the loop of executor.go with the goroutines that
--     feed it, and Counts, Awake and Wakeup are about their interleavings.
--   Ui: Ui.Compose is wrap.go of internal/ui/room/compose, over the widths of runes as parameters;
--     Compose.Content is about the wrapped lines.
--   The modules named Tests run the theorems at concrete inputs.
--
-- Conventions. A method on a pointer returns the new value of the object beside its results. Locks
-- are left out, as each method holds its own from end to end. Time is a number. The `uint64` versions
-- do not wrap: they count from zero by one; a turn id wraps as the code has it. An `int` that is an
-- index or a length is a natural number; one that may be negative is an integer.
--
-- Bounds and fuel. The search for a colour, a loop without a bound, has a number of attempts that
-- is a parameter: some number is enough exactly if an attempt gives a colour that is not in use. A
-- decimal has fewer
-- digits than the successor of its value, which is the fuel of `itoa`. The loop of the instruction
-- runner has fuel for the items of its queue: how many there are depends on the session, whose events
-- it runs, so what is shown is that it ends exactly if the reference does. All other recursion is
-- structural.
--
-- Concurrency in the session. What runs under one hold of the session's lock is one function, with
-- the notification that follows it. A handler of a message, of a read error or of a phase of the startup
-- is one step. Commands come one after another, as the session asks of its callers; while an agent's
-- `Send` is called, any steps may happen, and a `Delivery` lists them with the call's result.
--
-- Not modelled: the formula of a colour, which is floating-point arithmetic and a parameter; reading
-- from processes and files; the terminal interface beyond
-- the wrapping of the composer; the codex protocol
-- beyond its notices and its notifications; the short form of a
-- message in a diagnostic (summarizeAgentMessage), a parameter; and, so far, the interpreter's event
-- dispatcher and the channels on which its operations answer.
pub mod Agent
pub mod Interpreter
pub mod LineStream
pub mod Participant
pub mod Policy
pub mod Prelude
pub mod PromptLang
pub mod Queue
pub mod Room
pub mod Session
pub mod Ui
