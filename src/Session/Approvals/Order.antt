-- ===== src/Session/Approvals/Order.antt =====
-- internal/session/approvals.go: the order in which the requests are answered.
use coderoom.Prelude.{
  ℕ, suc, ◌≤◌, ◌<◌, ◌≡◌, String, Option, none, some, List, [], ◌∷◌, ◌++◌, arith, nat_eq,
  Option-cases, List-cases, inl, inr, sym, subst, ap, ◌∙◌, Bool-cases, not, ◌&&◌, ◌==◌,
  if◌then◌else◌, refl, if_cases,
}
use coderoom.Session.Approvals.Rising.{
  Rising, Rising-weaken, Rising-append_last, Rising-under, Rising-back, le_of_Rising,
}
use coderoom.Agent.Approvals.{ApprovalRequest}
use coderoom.Session.Approvals.{
  PendingApproval, ApprovalQueue, ApprovalHub, request, resolve_command, resolve, cancel,
  drop_pending, new_approval_hub, promote,
}

abbrev pub ids : List PendingApproval → List ℕ
ids [] = []
ids (p ∷ ps) = p.id ∷ ids ps

abbrev pub answered : List (ℕ × String) → List ℕ
answered [] = []
answered ((id, _) ∷ rest) = id ∷ answered rest

-- The requests that wait: the one that is shown, then the queue.
abbrev pub front_and_rest : Option PendingApproval → List PendingApproval → List PendingApproval
front_and_rest none queue = []
front_and_rest (some p) queue = p ∷ queue

abbrev pub waiting : ApprovalQueue → List PendingApproval
waiting q = front_and_rest q.active q.queue

pub data HubStep : Type 0 where
  requests : String → ApprovalRequest → HubStep
  resolves : ℕ → String → HubStep
  cancels : ℕ → HubStep

unfoldable pub hub_step : HubStep → ApprovalHub → ApprovalHub
unfolding request resolve_command cancel
hub_step (requests alias req) h = (request alias req h).0
hub_step (resolves id choice) h = (resolve_command id choice h).0
hub_step (cancels id) h = (cancel id h).0

unfoldable pub hub_run : List HubStep → ApprovalHub → ApprovalHub
hub_run [] h = h
hub_run (s ∷ ss) h = hub_run ss (hub_step s h)

Rising-drop_pending :
    (low id : ℕ) (ps : List PendingApproval) (high : ℕ)
    → Rising low (ids ps) high
    → Rising low (ids (drop_pending id ps)) high
unfolding drop_pending
Rising-drop_pending low id [] high r = r
Rising-drop_pending low id (p ∷ ps) high r =
    if_cases (λ l. Rising low (ids l) high) (nat_eq.eqb p.id id)
      (λ _. Rising-weaken p.id low (ids ps) high (omega arith) r.1)
      (λ _. (r.0, Rising-drop_pending p.id id ps high r.1))

-- Answered and waiting requests, in the order of their numbers.
abbrev pub seen : ApprovalHub → List ℕ
seen h = answered h.answers ++ ids (waiting h.queue)

pub record HubInv (h : ApprovalHub) : Type 0 where
  -- the numbers of the answered requests, then of those that wait, rise
  pub ordered : Rising 0 (seen h) h.queue.approval_id
  -- a request is shown whenever any waits
  pub shown : h.queue.active ≡ none → h.queue.queue ≡ []

pub HubInv-new : HubInv new_approval_hub
unfolding new_approval_hub
HubInv-new = record { ordered = omega arith; shown = λ _. refl }

ids-append :
    (xs : List PendingApproval) (p : PendingApproval) → ids (xs ++ p ∷ []) ≡ ids xs ++ p.id ∷ []
ids-append [] p = refl
ids-append (x ∷ xs) p = ap (λ l. x.id ∷ l) (ids-append xs p)

-- What waits, seen from its first request.
waiting-promote :
    (q : ApprovalQueue) (p : PendingApproval)
    → q.active ≡ some p
    → waiting q ≡ p ∷ waiting (promote q)
waiting-promote q p e = elim (List-cases q.queue) [
  | inl empty ↦ rw (e, empty)
  | inr (next, rest, more) ↦ rw (e, more)
]

promote_shown : (q : ApprovalQueue) → (promote q).active ≡ none → (promote q).queue ≡ []
promote_shown q h = elim (List-cases q.queue) [
  | inl empty ↦ ground arith
  | inr (next, rest, more) ↦ ground arith
]

request_waiting :
    (alias : String) (req : ApprovalRequest) (h : ApprovalHub)
    → (h.queue.active ≡ none → h.queue.queue ≡ [])
    → ids (waiting (request alias req h).0.queue)
      ≡ ids (waiting h.queue) ++ suc h.queue.approval_id ∷ []
unfolding request
request_waiting alias req h shown = elim (Option-cases h.queue.active) [
  | inl e ↦ rw (e, shown e)
  | inr (p, e) ↦ rw e (ap (λ l. p.id ∷ l) (ids-append h.queue.queue _))
]

request_shown :
    (alias : String) (req : ApprovalRequest) (h : ApprovalHub)
    → (h.queue.active ≡ none → h.queue.queue ≡ [])
    → (request alias req h).0.queue.active ≡ none
    → (request alias req h).0.queue.queue ≡ []
unfolding request
request_shown alias req h shown e = ground arith

pub request_numbers :
    (alias : String) (req : ApprovalRequest) (h : ApprovalHub)
    → (request alias req h).0.queue.approval_id ≡ suc h.queue.approval_id
unfolding request
request_numbers alias req h = ground arith

pub request-HubInv :
    (alias : String) (req : ApprovalRequest) (h : ApprovalHub)
    → HubInv h
    → HubInv (request alias req h).0
request-HubInv alias req h v = record {
  ordered =
      unfold request in
      rw (request_numbers alias req h, request_waiting alias req h v.shown)
        (Rising-under (answered h.answers) (ids (waiting h.queue)) _ 0 h.queue.approval_id _
          (λ low r. Rising-append_last low _ _ r) v.ordered);
  shown = request_shown alias req h v.shown;
}

abbrev pub resolved_hub : PendingApproval → String → ApprovalHub → ApprovalHub
resolved_hub p choice h = record h {
  queue = promote h.queue;
  answers = h.answers ++ (p.id, choice) ∷ [];
}

-- `resolve` refuses, or answers the active request, whose number is given unless that is zero.
pub resolve_cases {κ} :
    (P : ApprovalHub → Type κ) (id : ℕ) (choice : String) (h : ApprovalHub)
    → P h
    → ((p : PendingApproval) → h.queue.active ≡ some p → P (resolved_hub p choice h))
    → P (resolve id choice h).0
unfolding resolve
resolve_cases P id choice h stay answer = elim (Option-cases h.queue.active) [
  | inl e ↦ let q : (resolve id choice h).0 ≡ h = ground arith in subst P (sym q) stay
  | inr (p, e) ↦ elim (Bool-cases (not (id == 0) && not (p.id == id))) [
    | inl t ↦ let q : (resolve id choice h).0 ≡ h = ground arith in subst P (sym q) stay
    | inr t ↦
        let q : (resolve id choice h).0 ≡ resolved_hub p choice h = ground arith in
        subst P (sym q) (answer p e)
  ]
]

answered-append :
    (done : List (ℕ × String)) (id : ℕ) (choice : String) (ns : List ℕ)
    → answered (done ++ (id, choice) ∷ []) ++ ns ≡ answered done ++ id ∷ ns
answered-append [] id choice ns = refl
answered-append ((n, c) ∷ done) id choice ns = ap (λ l. n ∷ l) (answered-append done id choice ns)

-- The numbers that a resolution has seen stand as before it.
seen-resolved_hub :
    (p : PendingApproval) (choice : String) (h : ApprovalHub)
    → h.queue.active ≡ some p
    → seen (resolved_hub p choice h) ≡ seen h
seen-resolved_hub p choice h e =
    answered-append h.answers p.id choice _
    ∙ sym (ap (λ l. answered h.answers ++ ids l) (waiting-promote h.queue p e))

pub promote_numbers : (q : ApprovalQueue) → (promote q).approval_id ≡ q.approval_id
promote_numbers q = elim (List-cases q.queue) [
  | inl empty ↦ ground arith
  | inr (next, rest, more) ↦ ground arith
]

resolved_hub-HubInv :
    (p : PendingApproval) (choice : String) (h : ApprovalHub)
    → HubInv h
    → h.queue.active ≡ some p
    → HubInv (resolved_hub p choice h)
resolved_hub-HubInv p choice h v e = record {
  ordered =
      subst (λ n. Rising 0 (seen (resolved_hub p choice h)) n) (sym (promote_numbers h.queue))
        (subst (λ l. Rising 0 l h.queue.approval_id) (sym (seen-resolved_hub p choice h e))
          v.ordered);
  shown = promote_shown h.queue;
}

pub resolve-HubInv :
    (id : ℕ) (choice : String) (h : ApprovalHub) → HubInv h → HubInv (resolve id choice h).0
resolve-HubInv id choice h v =
    resolve_cases HubInv id choice h v (λ p e. resolved_hub-HubInv p choice h v e)

-- `cancel` takes the active request away, or one of the queue.
pub cancel_cases {κ} :
    (P : ApprovalHub → Type κ) (id : ℕ) (h : ApprovalHub)
    → ((p : PendingApproval)
        → h.queue.active ≡ some p
        → p.id ≡ id
        → P (record h { queue = promote h.queue }))
    → P (record h { queue = record h.queue { queue = drop_pending id h.queue.queue } })
    → P (cancel id h).0
unfolding cancel
cancel_cases P id h active queued = elim (Option-cases h.queue.active) [
  | inl e ↦
      let q : (cancel id h).0
          ≡ record h { queue = record h.queue { queue = drop_pending id h.queue.queue } } =
        ground arith in
      subst P (sym q) queued
  | inr (p, e) ↦ elim (Bool-cases (p.id == id)) [
    | inl t ↦ elim (List-cases h.queue.queue) [
      | inl empty ↦
          let q : (cancel id h).0 ≡ record h { queue = promote h.queue } = ground arith in
          subst P (sym q) (active p e (ground arith))
      | inr (next, rest, more) ↦
          let q : (cancel id h).0 ≡ record h { queue = promote h.queue } = ground arith in
          subst P (sym q) (active p e (ground arith))
    ]
    | inr t ↦
        let q : (cancel id h).0
            ≡ record h { queue = record h.queue { queue = drop_pending id h.queue.queue } } =
          ground arith in
        subst P (sym q) queued
  ]
]

Rising-front_and_rest :
    (low id : ℕ) (front : Option PendingApproval) (ps : List PendingApproval) (high : ℕ)
    → Rising low (ids (front_and_rest front ps)) high
    → Rising low (ids (front_and_rest front (drop_pending id ps))) high
Rising-front_and_rest low id none ps high r = r
Rising-front_and_rest low id (some p) ps high r = (r.0, Rising-drop_pending p.id id ps high r.1)

drop_pending-empty : (id : ℕ) (ps : List PendingApproval) → ps ≡ [] → drop_pending id ps ≡ []
unfolding drop_pending
drop_pending-empty id ps e = rw e

pub cancel-HubInv : (id : ℕ) (h : ApprovalHub) → HubInv h → HubInv (cancel id h).0
cancel-HubInv id h v =
    cancel_cases HubInv id h
      (λ p e _. record {
        ordered =
            subst (λ n. Rising 0 (answered h.answers ++ ids (waiting (promote h.queue))) n)
              (sym (promote_numbers h.queue))
              (Rising-under (answered h.answers) (p.id ∷ ids (waiting (promote h.queue))) _ 0
                h.queue.approval_id h.queue.approval_id
                (λ low r. Rising-weaken p.id low _ _ (omega arith) r.1)
                (subst (λ l. Rising 0 (answered h.answers ++ ids l) h.queue.approval_id)
                  (waiting-promote h.queue p e) v.ordered));
        shown = promote_shown h.queue;
      })
      (record {
        ordered =
            Rising-under (answered h.answers) (ids (waiting h.queue)) _ 0 h.queue.approval_id
              h.queue.approval_id
              (λ low r. Rising-front_and_rest low id h.queue.active h.queue.queue _ r) v.ordered;
        shown = λ e. drop_pending-empty id h.queue.queue (v.shown e);
      })

pub resolve_command_hub :
    (id : ℕ) (choice : String) (h : ApprovalHub)
    → (resolve_command id choice h).0 ≡ (if id == 0 then h else (resolve id choice h).0)
unfolding resolve_command
resolve_command_hub id choice h = ground arith

pub hub_step-HubInv : (s : HubStep) (h : ApprovalHub) → HubInv h → HubInv (hub_step s h)
unfolding hub_step
hub_step-HubInv (requests alias req) h v = request-HubInv alias req h v
hub_step-HubInv (resolves id choice) h v =
    rw (resolve_command_hub id choice h)
      (if_cases HubInv (id == 0) (λ _. v) (λ _. resolve-HubInv id choice h v))
hub_step-HubInv (cancels id) h v = cancel-HubInv id h v

pub hub_run-HubInv : (ss : List HubStep) (h : ApprovalHub) → HubInv h → HubInv (hub_run ss h)
unfolding hub_run
hub_run-HubInv [] h v = v
hub_run-HubInv (s ∷ ss) h v = hub_run-HubInv ss (hub_step s h) (hub_step-HubInv s h v)

-- After any requests, resolutions and cancellations, the numbers of the answered requests rise, and
-- those of the requests that still wait rise above them: requests are answered in the order in which
-- they were made, and none of them twice.
pub answers_in_order :
    (ss : List HubStep)
    → let h = hub_run ss new_approval_hub in
      Rising 0 (answered h.answers ++ ids (waiting h.queue)) h.queue.approval_id
answers_in_order ss = (hub_run-HubInv ss new_approval_hub HubInv-new).ordered

-- The numbers that wait, from the active request on.
active_Rising :
    (h : ApprovalHub) (p : PendingApproval)
    → HubInv h
    → h.queue.active ≡ some p
    → Rising p.id (ids (waiting (promote h.queue))) h.queue.approval_id
active_Rising h p v e =
    let (low, r) = Rising-back (answered h.answers) (ids (waiting h.queue)) 0 _ v.ordered in
    (subst (λ l. Rising low (ids l) h.queue.approval_id) (waiting-promote h.queue p e) r).1

-- The request that is shown is among those that have been numbered.
pub active_le :
    (h : ApprovalHub) (p : PendingApproval)
    → HubInv h
    → h.queue.active ≡ some p
    → p.id ≤ h.queue.approval_id
active_le h p v e = le_of_Rising p.id _ _ (active_Rising h p v e)

-- The one that comes after it is newer.
pub promote_newer :
    (h : ApprovalHub) (p next : PendingApproval)
    → HubInv h
    → h.queue.active ≡ some p
    → (promote h.queue).active ≡ some next
    → p.id < next.id
promote_newer h p next v e n =
    (subst (λ l. Rising p.id (ids l) h.queue.approval_id) (waiting-promote (promote h.queue) next n)
      (active_Rising h p v e)).0
