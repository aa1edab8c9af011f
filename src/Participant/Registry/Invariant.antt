-- ===== src/Participant/Registry/Invariant.antt =====
-- internal/participant/registry.go: what holds of the registry between two operations.
use coderoom.Prelude.Dict
use coderoom.Prelude.Sets
use coderoom.Prelude.{
  ℕ, String, ◌≡◌, true, false, Option, none, some, arith, string_eq, Option-cases, inl, inr, sym,
  subst,
}
use coderoom.Participant.{Participant}
use coderoom.Participant.Registry.{
  Registry, RegistryError, new_registry, add, get, remove, with_color,
}
use coderoom.Participant.Registry.Colors.{ColorAllocator, next, next-fresh}

-- Participants stand under their aliases, and no two have one colour.
pub record Inv (r : Registry) : Type 0 where
  pub keyed : (a : String) (p : Participant) → get a r ≡ some p → p.view.alias ≡ a
  pub colored :
      (a : String) (p : Participant)
      → get a r ≡ some p
      → Sets.contains r.colors.used p.view.color ≡ true
  pub distinct :
      (a b : String) (p q : Participant)
      → get a r ≡ some p
      → get b r ≡ some q
      → p.view.color ≡ q.view.color
      → a ≡ b

pub Inv-new : Inv new_registry
unfolding new_registry get Dict.get
Inv-new = record { keyed = λ a p h. cc; colored = λ a p h. cc; distinct = λ a b p q h k e. cc }

remove-Inv : (a : String) (r : Registry) → Inv r → Inv (remove a r).0
unfolding remove get
remove-Inv a r v = record {
  keyed = λ b p h. ground (arith, Dict.get-delete a b r.participants, v.keyed b p);
  colored = λ b p h. ground (arith, Dict.get-delete a b r.participants, v.colored b p);
  distinct = λ b c p q h k e. ground (
    arith,
    Dict.get-delete a b r.participants,
    Dict.get-delete a c r.participants,
    v.distinct b c p q,
  );
}

abbrev registered : Participant → Registry → String → ColorAllocator → Registry
registered p r c cs = record {
  participants = Dict.put p.view.alias (with_color c p) r.participants;
  colors = cs;
}

put-Inv :
    (p : Participant) (r : Registry) (c : String) (cs : ColorAllocator)
    → Inv r
    → get p.view.alias r ≡ none
    → (Sets.contains r.colors.used c ≡ false) × (cs.used ≡ Sets.insert c r.colors.used)
    → Inv (registered p r c cs)
unfolding get
put-Inv p r c cs v free new = record {
  keyed = λ a q h. ground (
    arith,
    Dict.get-put p.view.alias a (with_color c p) r.participants,
    string_eq.eqb_iff p.view.alias a,
    v.keyed a q,
  );
  colored = λ a q h. ground (
    arith,
    Dict.get-put p.view.alias a (with_color c p) r.participants,
    v.colored a q,
    Sets.contains-insert c q.view.color r.colors.used,
    string_eq.eqb_iff c q.view.color,
  );
  distinct = λ a b q q' h k e. ground (
    arith,
    Dict.get-put p.view.alias a (with_color c p) r.participants,
    Dict.get-put p.view.alias b (with_color c p) r.participants,
    string_eq.eqb_iff p.view.alias a,
    string_eq.eqb_iff p.view.alias b,
    v.distinct a b q q',
    v.colored a q,
    v.colored b q',
  );
}

module _ (participant_color : ℕ → ℕ → String) (attempts : ℕ) where
  -- How an addition can end.
  pub add_cases :
      (p : Participant) (r s : Registry)
      → add participant_color attempts (some p) r ≡ some (s, none)
      → (color : String) × (colors : ColorAllocator) × (next participant_color attempts r.colors
          ≡ some (color, colors))
        × (s ≡ registered p r color colors)
        × (get p.view.alias r ≡ none)
  unfolding add get
  add_cases p r s h = elim (Option-cases (next participant_color attempts r.colors)) [
    | inl e ↦ ground arith
    | inr ((c, cs), e) ↦ (c, cs, e, ground arith, ground arith)
  ]

  add_refused :
      (p : Participant) (r s : Registry) (x : RegistryError)
      → add participant_color attempts (some p) r ≡ some (s, some x)
      → r ≡ s
  unfolding add
  add_refused p r s x h = ground arith

  -- Adding a participant keeps the registry keyed by alias and its colours distinct, whether it is
  -- accepted or refused.
  pub add-Inv :
      (o : Option Participant) (r s : Registry) (e : Option RegistryError)
      → Inv r
      → add participant_color attempts o r ≡ some (s, e)
      → Inv s
  unfolding add
  add-Inv none r s e v h = subst Inv (ground arith) v
  add-Inv (some p) r s (some x) v h = subst Inv (add_refused p r s x h) v
  add-Inv (some p) r s none v h =
      let (c, cs, step, e, free) = add_cases p r s h in
      subst Inv (sym e)
        (put-Inv p r c cs v free (next-fresh participant_color attempts r.colors cs c step))
