-- ===== src/Interpreter/Approval/Agree.antt =====
-- internal/interpreter/approval.go and internal/session/approvals.go: the front end shows what the
-- hub asks.
use coderoom.Prelude.Results.{ok, Result-cases}
use coderoom.Prelude.{
  ℕ, ◌≤◌, ◌<◌, ◌≡◌, String, false, Option, none, some, List, [], ◌∷◌, ◌++◌, arith, nat_eq,
  Option-cases, inl, inr, sym, subst, ap, refl, beq_refl, ◌∙◌, is_none, false,
}
use mathlib.Core.Option.{some-injective}
use mathlib.Core.List.{append-nil}
use coderoom.Agent.Approvals.{ApprovalRequest}
use coderoom.Session.Event.{Event, approval_cleared}
use coderoom.Session.Approvals.{
  PendingApproval, ApprovalHub, resolve_command, cancel, promote, publish,
}
use coderoom.Session.Approvals.Order.{
  HubInv, resolves, hub_step, hub_step-HubInv, HubInv-new, active_le, promote_numbers,
  request_numbers, cancel_cases, request-HubInv, cancel-HubInv,
}
use coderoom.Interpreter.Approval.{
  Approval, apply_approval_event, approval_from_agent, clear_approval, resolve_approval_choice,
}
use coderoom.Interpreter.Approval.Mirror.{
  Desk, DeskStep, asks, gives_up, reads_inbox, answers_shown, shown_after, desk_step, desk_run,
  new_desk, as_shown, resolve_approval, Effect, silent, shows_next, clears, request-Effect,
  cancel-Effect, resolve_effect,
}

pub record DeskInv (d : Desk) : Type 0 where
  pub hub_inv : HubInv d.hub
  -- reading the inbox shows the hub's request
  pub mirrored : shown_after d.inbox d.shown ≡ as_shown d.hub.queue.active
  -- if the hub's request is shown already, there is nothing to read
  pub quiet :
      (a : Approval) (p : PendingApproval)
      → d.shown ≡ some a
      → d.hub.queue.active ≡ some p
      → a.id ≡ p.id
      → d.inbox ≡ []
  -- what is shown is no newer than the hub's request, nor than the last number
  pub older :
      (a : Approval) (p : PendingApproval)
      → d.shown ≡ some a
      → d.hub.queue.active ≡ some p
      → a.id ≤ p.id
  pub numbered : (a : Approval) → d.shown ≡ some a → a.id ≤ d.hub.queue.approval_id

DeskInv-new : DeskInv new_desk
unfolding new_desk shown_after
DeskInv-new = record {
  hub_inv = HubInv-new;
  mirrored = refl;
  quiet = λ a p h k e. cc;
  older = λ a p h k. cc;
  numbered = λ a h. cc;
}

shown_after-append :
    (es fs : List Event) (shown : Option Approval)
    → shown_after (es ++ fs) shown ≡ shown_after fs (shown_after es shown)
unfolding shown_after
shown_after-append [] fs shown = refl
shown_after-append (e ∷ es) fs shown = shown_after-append es fs (apply_approval_event e shown).0

abbrev received : ApprovalHub → List Event → Desk → Desk
received hub events d = record d { hub = hub; inbox = d.inbox ++ events }

-- What is shown is older than a request that has just come up.
older_than_next :
    (d : Desk) (p : PendingApproval) (a : Approval)
    → DeskInv d
    → ((q : PendingApproval) → d.hub.queue.active ≡ some q → q.id < p.id)
    → (d.hub.queue.active ≡ none → d.hub.queue.approval_id < p.id)
    → d.shown ≡ some a
    → a.id < p.id
older_than_next d p a v newer fresh s = elim (Option-cases d.hub.queue.active) [
  | inl e ↦ omega (arith, fresh e, v.numbered a s)
  | inr (q, e) ↦ omega (arith, newer q e, v.older a q s e)
]

cleared_shown :
    (alias : String) (id : ℕ) (asker : String) (req : ApprovalRequest)
    → shown_after (approval_cleared alias id ∷ []) (some (approval_from_agent id asker req)) ≡ none
unfolding shown_after apply_approval_event
cleared_shown alias id asker req = ground (arith, beq_refl id)

published : (active : Option PendingApproval) → shown_after (publish active) none ≡ as_shown active
unfolding shown_after apply_approval_event
published none = refl
published (some p) = refl

-- What is shown as the hub's request has its number.
as_shown_id :
    (active : Option PendingApproval) (a : Approval)
    → as_shown active ≡ some a
    → (p : PendingApproval) × (active ≡ some p) × (a.id ≡ p.id)
unfolding approval_from_agent
as_shown_id none a h = cc
as_shown_id (some p) a h = (p, refl, sym (ap (λ (b : Approval). b.id) (some-injective _ _ h)))

-- Publishing keeps the invariant.
receive-DeskInv :
    (d : Desk) (hub : ApprovalHub) (events : List Event)
    → DeskInv d
    → HubInv hub
    → d.hub.queue.approval_id ≤ hub.queue.approval_id
    → Effect d.hub hub events
    → DeskInv (received hub events d)
receive-DeskInv d hub events v hv le (silent same sent) = record {
  hub_inv = hv;
  mirrored = rw (sent, append-nil, same) v.mirrored;
  quiet = λ a p s e n. rw (sent, append-nil) (v.quiet a p s (sym same ∙ e) n);
  older = λ a p s e. v.older a p s (sym same ∙ e);
  numbered = λ a s. omega (arith, v.numbered a s);
}
receive-DeskInv d hub events v hv le (shows_next p now newer fresh sent) = record {
  hub_inv = hv;
  mirrored = rw (sent, shown_after-append, now) (unfold shown_after apply_approval_event in refl);
  quiet = λ a q s e n. absurd (
      omega (
        arith,
        older_than_next d p a v newer fresh s,
        ap (λ (r : PendingApproval). r.id) (some-injective _ _ (sym now ∙ e)),
        n,
      ));
  older = λ a q s e. omega (
    arith,
    older_than_next d p a v newer fresh s,
    ap (λ (r : PendingApproval). r.id) (some-injective _ _ (sym now ∙ e)),
  );
  numbered = λ a s. omega (arith, v.numbered a s);
}
receive-DeskInv d hub events v hv le (clears p alias before after sent) = record {
  hub_inv = hv;
  mirrored =
      rw (sent, shown_after-append, v.mirrored, before, after)
        (cleared_shown alias p.id p.alias p.req);
  quiet = λ a q s e n. cc;
  older = λ a q s e. cc;
  numbered = λ a s. omega (arith, v.numbered a s);
}

-- Reading the inbox keeps it.
read-DeskInv : (d : Desk) → DeskInv d → DeskInv (desk_step reads_inbox d)
unfolding desk_step
read-DeskInv d v = record {
  hub_inv = v.hub_inv;
  mirrored = unfold shown_after in v.mirrored;
  quiet = λ a p s e n. refl;
  older = λ a p s e.
      let (q, f, n) = as_shown_id d.hub.queue.active a (sym v.mirrored ∙ s) in
      omega (arith, n, ap (λ (r : PendingApproval). r.id) (some-injective _ _ (sym f ∙ e)));
  numbered = λ a s.
      let (q, f, n) = as_shown_id d.hub.queue.active a (sym v.mirrored ∙ s) in
      omega (arith, n, active_le d.hub q v.hub_inv f);
}

-- The choice is looked for only if the number is that of what is shown.
resolve_approval_choice_shows :
    (id : ℕ) (choice : String) (shown : Option Approval) {value : String}
    → resolve_approval_choice id choice shown ≡ ok value
    → (a : Approval) × (shown ≡ some a) × (a.id ≡ id)
unfolding resolve_approval_choice
resolve_approval_choice_shows id choice none h = cc
resolve_approval_choice_shows id choice (some a) h = (a, refl, ground arith)

clear_approval_shown : (id : ℕ) (a : Approval) → a.id ≡ id → (clear_approval id (some a)).0 ≡ none
unfolding clear_approval
clear_approval_shown id a e = ground arith

cancel_numbers :
    (id : ℕ) (h : ApprovalHub) → h.queue.approval_id ≤ (cancel id h).0.queue.approval_id
cancel_numbers id h =
    cancel_cases (λ k. h.queue.approval_id ≤ k.queue.approval_id) id h
      (λ p e n. omega (arith, promote_numbers h.queue)) (omega arith)

abbrev after_answer : ApprovalHub → List Event → Desk → Desk
after_answer hub events d = record d { hub = hub; inbox = d.inbox ++ events; shown = none }

-- An answer that the hub takes keeps the invariant.
answer-DeskInv :
    (d : Desk) (hub : ApprovalHub) (events : List Event) (a : Approval) (p : PendingApproval)
    → DeskInv d
    → HubInv hub
    → d.shown ≡ some a
    → d.hub.queue.active ≡ some p
    → a.id ≡ p.id
    → hub.queue ≡ promote d.hub.queue
    → events ≡ publish (promote d.hub.queue).active
    → DeskInv (after_answer hub events d)
answer-DeskInv d hub events a p v hv s e same promoted sent = record {
  hub_inv = hv;
  mirrored = rw (v.quiet a p s e same, sent, promoted) (published (promote d.hub.queue).active);
  quiet = λ b q t f n. cc;
  older = λ b q t f. cc;
  numbered = λ b t. cc;
}

-- An answer that the hub refuses changes nothing.
resolve_approval_refused :
    (id : ℕ) (choice value : String) (d : Desk)
    → resolve_approval_choice id choice d.shown ≡ ok value
    → is_none (resolve_command id value d.hub).2 ≡ false
    → (resolve_command id value d.hub).0 ≡ d.hub
    → (resolve_command id value d.hub).1 ≡ []
    → resolve_approval id choice d ≡ d
unfolding resolve_approval
resolve_approval_refused id choice value d chosen failed same sent =
    elim (Option-cases (resolve_command id value d.hub).2) [
      | inl e ↦ ground arith
      | inr (e, f) ↦ ground (arith, append-nil d.inbox)
    ]

resolve_approval_taken :
    (id : ℕ) (choice value : String) (d : Desk) (a : Approval)
    → resolve_approval_choice id choice d.shown ≡ ok value
    → (resolve_command id value d.hub).2 ≡ none
    → d.shown ≡ some a
    → a.id ≡ id
    → resolve_approval id choice d
      ≡ after_answer (resolve_command id value d.hub).0 (resolve_command id value d.hub).1 d
unfolding resolve_approval
resolve_approval_taken id choice value d a chosen done s m =
    ground (arith, clear_approval_shown id a m)

resolve_approval-DeskInv :
    (id : ℕ) (choice : String) (d : Desk) → DeskInv d → DeskInv (resolve_approval id choice d)
resolve_approval-DeskInv id choice d v =
    elim (Result-cases (resolve_approval_choice id choice d.shown)) [
      | inr (e, refused) ↦ unfold resolve_approval in rw (refused, resolve_approval) v
      | inl (value, chosen) ↦ elim (resolve_effect id value d.hub) [
        | inl (failed, same, sent) ↦
            subst DeskInv (sym (resolve_approval_refused id choice value d chosen failed same sent))
              v
        | inr (p, active, n, done, promoted, sent) ↦
            let (a, s, m) = resolve_approval_choice_shows id choice d.shown chosen in
            let hv : HubInv (resolve_command id value d.hub).0 =
              unfold hub_step in hub_step-HubInv (resolves id value) d.hub v.hub_inv in
            subst DeskInv (sym (resolve_approval_taken id choice value d a chosen done s m))
              (answer-DeskInv d _ _ a p v hv s active (m ∙ sym n) promoted sent)
      ]
    ]

desk_step-DeskInv : (s : DeskStep) (d : Desk) → DeskInv d → DeskInv (desk_step s d)
unfolding desk_step
desk_step-DeskInv (asks alias req) d v =
    receive-DeskInv d _ _ v (request-HubInv alias req d.hub v.hub_inv)
      (omega (arith, request_numbers alias req d.hub)) (request-Effect alias req d.hub)
desk_step-DeskInv (gives_up id) d v =
    receive-DeskInv d _ _ v (cancel-HubInv id d.hub v.hub_inv) (cancel_numbers id d.hub)
      (cancel-Effect id d.hub v.hub_inv)
desk_step-DeskInv reads_inbox d v = read-DeskInv d v
desk_step-DeskInv (answers_shown id choice) d v = resolve_approval-DeskInv id choice d v

desk_run-DeskInv : (ss : List DeskStep) (d : Desk) → DeskInv d → DeskInv (desk_run ss d)
unfolding desk_run
desk_run-DeskInv [] d v = v
desk_run-DeskInv (s ∷ ss) d v = desk_run-DeskInv ss (desk_step s d) (desk_step-DeskInv s d v)

-- Whatever agents ask and give up and the front end answers, in whatever order and with the inbox
-- read at whatever times, once the inbox has been read the front end shows exactly the request that
-- is active in the hub, or nothing if none is.
pub shown_is_active :
    (ss : List DeskStep)
    → let d = desk_run ss new_desk in (desk_step reads_inbox d).shown ≡ as_shown d.hub.queue.active
unfolding desk_step
shown_is_active ss = (desk_run-DeskInv ss new_desk DeskInv-new).mirrored
