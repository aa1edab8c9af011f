-- ===== src/Session/Identity.antt =====
-- internal/session/session.go: the turns' numbers, and what keeps a turn from being reported twice.
pub mod Updates
pub mod Messages
pub mod Lifecycle
pub mod Commands
pub mod Notices
pub mod Reported
use coderoom.Prelude.Dict
use coderoom.Prelude.Dict.{Dict}
use coderoom.Prelude.Sets
use coderoom.Prelude.{
  ℕ, suc, ◌+◌, ◌≤◌, ◌<◌, ◌≡◌, ◌≢◌, String, Bool, true, false, ◌||◌, Option, none, some, List, [],
  ◌∷◌, ◌++◌, ◌⊎◌, inl, inr, arith, string_eq, nat_eq, ◌==◌, if◌then◌else◌, Bool-cases, sym, ap,
  refl, subst, beq_refl, ◌∙◌, All,
}
use mathlib.Core.Option.{some-injective}
use coderoom.Participant.{Participant, Status, working, status_is}
use coderoom.Session.Event.{Event, agent_message}
use coderoom.Session.State.{Session}
use coderoom.Session.Turns.{next_turn_id}

abbrev pub is_working : Participant → Bool
is_working p = status_is p.view.status working

-- The turns that the events report as completed, in order.
unfoldable pub completed_turns : List Event → List ℕ
completed_turns [] = []
completed_turns (agent_message m ∷ es) =
    let rest = completed_turns es in if m.turn_completed then m.turn_id ∷ rest else rest
completed_turns (_ ∷ es) = completed_turns es

-- No number stands twice.
abbrev pub Distinct : List ℕ → Type 0
Distinct [] = Unit {0}
Distinct (n ∷ ns) = (Sets.contains ns n ≡ false) × Distinct ns

-- An event that reports no turn.
abbrev pub Plain : Event → Type 0
Plain e = completed_turns (e ∷ []) ≡ []

-- The invariant of the parts of a session that it speaks of.
pub record TurnInv (m : Dict String Participant) (last : ℕ) (reported : List ℕ) : Type 0 where
  pub bounded : last < 18446744073709551616
  pub numbered : (a : String) (p : Participant) → Dict.get a m ≡ some p → p.view.turn_id ≤ last
  pub apart :
      (a b : String) (p q : Participant)
      → Dict.get a m ≡ some p
      → Dict.get b m ≡ some q
      → is_working p ≡ true
      → is_working q ≡ true
      → p.view.turn_id ≡ q.view.turn_id
      → a ≡ b
  pub unreported :
      (a : String) (p : Participant)
      → Dict.get a m ≡ some p
      → is_working p ≡ true
      → Sets.contains reported p.view.turn_id ≡ false
  pub past : (n : ℕ) → Sets.contains reported n ≡ true → n ≤ last
  pub once : Distinct reported

abbrev pub Sound : Session → Type 0
Sound s = TurnInv s.registry.participants s.last_turn_id (completed_turns s.events)

-- What stands in a map after an assignment.
pub got {ℓ} :
    {V : Type ℓ} (a b : String) (q p : V) (m : Dict String V)
    → Dict.get b (Dict.put a q m) ≡ some p
    → ((a ≡ b) × (q ≡ p)) ⊎ (Dict.get b m ≡ some p)
got a b q p m h = elim (Bool-cases (a == b)) [
  | inl t ↦ inl ((string_eq.eqb_iff a b).0 t, some-injective _ _ (sym (get-put_yes t) ∙ h))
  | inr t ↦ inr (sym (get-put_no t) ∙ h)
]
  where
    get-put_yes : (a == b) ≡ true → Dict.get b (Dict.put a q m) ≡ some q
    get-put_yes t = rw (Dict.get-put a b q m, t)

    get-put_no : (a == b) ≡ false → Dict.get b (Dict.put a q m) ≡ Dict.get b m
    get-put_no t = rw (Dict.get-put a b q m, t)

pub got_self {ℓ} :
    {V : Type ℓ} (a : String) (q p : V) (m : Dict String V)
    → Dict.get a (Dict.put a q m) ≡ some p
    → q ≡ p
got_self a q p m h = some-injective _ _ (sym here ∙ h)
  where
    here : Dict.get a (Dict.put a q m) ≡ some q
    here = rw (Dict.get-put a a q m, beq_refl a)

contains-append_last :
    (ns : List ℕ) (n k : ℕ) → Sets.contains (ns ++ n ∷ []) k ≡ (Sets.contains ns k || n == k)
unfolding Sets.contains
contains-append_last [] n k = ground arith
contains-append_last (x ∷ ns) n k = ground (arith, contains-append_last ns n k)

Distinct-append_last :
    (ns : List ℕ) (n : ℕ) → Sets.contains ns n ≡ false → Distinct ns → Distinct (ns ++ n ∷ [])
unfolding Sets.contains
Distinct-append_last [] n h d = (refl, tt)
Distinct-append_last (x ∷ ns) n h d =
    (ground (arith, contains-append_last ns n x), Distinct-append_last ns n (ground arith) d.1)

module _ (m : Dict String Participant) (last : ℕ) (reported : List ℕ)
    (v : TurnInv m last reported) where
  -- A participant is changed that was working on the same turn, or that does not work afterwards.
  pub put-TurnInv :
      (a : String) (q : Participant)
      → q.view.turn_id ≤ last
      → (is_working q ≡ true
          → (p : Participant) × (Dict.get a m ≡ some p)
            × (is_working p ≡ true)
            × (p.view.turn_id ≡ q.view.turn_id))
      → TurnInv (Dict.put a q m) last reported
  put-TurnInv a q low same = record {
    bounded = v.bounded;
    numbered = λ b p h. elim (got a b q p m h) [
      | inl (_, e) ↦ subst (λ (r : Participant). r.view.turn_id ≤ last) e low
      | inr old ↦ v.numbered b p old
    ];
    apart = λ b c p r h k w x e.
        let (p', hp, wp, ep) = before b p h w in
        let (r', hr, wr, er) = before c r k x in v.apart b c p' r' hp hr wp wr (ep ∙ e ∙ sym er);
    unreported = λ b p h w.
        let (p', hp, wp, ep) = before b p h w in
        subst (λ n. Sets.contains reported n ≡ false) ep (v.unreported b p' hp wp);
    past = v.past;
    once = v.once;
  }
    where
      -- Who works now worked before, on the same turn.
      before :
          (b : String) (p : Participant)
          → Dict.get b (Dict.put a q m) ≡ some p
          → is_working p ≡ true
          → (p' : Participant) × (Dict.get b m ≡ some p')
            × (is_working p' ≡ true)
            × (p'.view.turn_id ≡ p.view.turn_id)
      before b p h w = elim (got a b q p m h) [
        | inr old ↦ (p, old, w, refl)
        | inl (ab, e) ↦
            let (p', hp, wp, ep) =
              same (subst (λ (r : Participant). is_working r ≡ true) (sym e) w) in
            (
              p',
              subst (λ c. Dict.get c m ≡ some p') ab hp,
              wp,
              ep ∙ ap (λ (r : Participant). r.view.turn_id) e,
            )
      ]

  -- A participant leaves.
  pub delete-TurnInv : (a : String) → TurnInv (Dict.delete a m) last reported
  delete-TurnInv a = record {
    bounded = v.bounded;
    numbered = λ b p h. ground (arith, Dict.get-delete a b m, v.numbered b p);
    apart = λ b c p q h k w x e.
        ground (arith, Dict.get-delete a b m, Dict.get-delete a c m, v.apart b c p q);
    unreported = λ b p h w. ground (arith, Dict.get-delete a b m, v.unreported b p);
    past = v.past;
    once = v.once;
  }

  -- A participant takes the next turn.
  pub begin-TurnInv :
      (a : String) (q : Participant) (next : ℕ)
      → q.view.turn_id ≡ next
      → next ≡ last + 1
      → next < 18446744073709551616
      → TurnInv (Dict.put a q m) next reported
  begin-TurnInv a q next e n small = record {
    bounded = small;
    numbered = λ b p h. elim (got a b q p m h) [
      | inl (_, f) ↦ subst (λ (r : Participant). r.view.turn_id ≤ next) f (omega arith)
      | inr old ↦ omega (arith, v.numbered b p old)
    ];
    apart = λ b c p r h k w x f. elim (got a b q p m h) [
      | inl (ab, f') ↦ elim (got a c q r m k) [
        | inl (ac, _) ↦ sym ab ∙ ac
        | inr old ↦ absurd (
            omega (arith, v.numbered c r old, f, e, n, ap (λ (t : Participant). t.view.turn_id) f'))
      ]
      | inr old ↦ elim (got a c q r m k) [
        | inl (ac, g) ↦
            absurd (
              omega
                (arith, v.numbered b p old, f, e, n, ap (λ (t : Participant). t.view.turn_id) g))
        | inr old' ↦ v.apart b c p r old old' w x f
      ]
    ];
    unreported = λ b p h w. elim (got a b q p m h) [
      | inr old ↦ v.unreported b p old w
      | inl (_, f) ↦ elim (Bool-cases (Sets.contains reported p.view.turn_id)) [
        | inr no_one ↦ no_one
        | inl held ↦ absurd (
            omega
              (arith, v.past p.view.turn_id held, e, n, ap (λ (t : Participant). t.view.turn_id) f))
      ]
    ];
    past = λ k h. omega (arith, v.past k h);
    once = v.once;
  }

  -- A turn of which no participant works any more is reported.
  pub report-TurnInv :
      (n : ℕ)
      → n ≤ last
      → Sets.contains reported n ≡ false
      → ((b : String) (p : Participant)
          → Dict.get b m ≡ some p
          → is_working p ≡ true
          → p.view.turn_id ≢ n)
      → TurnInv m last (reported ++ n ∷ [])
  report-TurnInv n low fresh free = record {
    bounded = v.bounded;
    numbered = v.numbered;
    apart = v.apart;
    unreported = λ b p h w.
        ground (
          arith,
          contains-append_last reported n p.view.turn_id,
          v.unreported b p h w,
          free b p h w,
        );
    past = λ k h. ground (arith, contains-append_last reported n k, v.past k);
    once = Distinct-append_last reported n fresh v.once;
  }
