-- ===== src/Participant/Registry.antt =====
-- internal/participant/registry.go and the allocator of internal/participant/colors.go. The formula
-- of a colour is floating-point arithmetic, and is the parameter `participant_color`.
pub mod Colors
pub mod Invariant
mod Tests
use coderoom.Prelude.Dict
use coderoom.Prelude.Dict.{Dict}
use coderoom.Prelude.{
  String, Bool, false, ◌&&◌, ◌||◌, Option, none, some, List, [], ◌∷◌, ◌==◌, string_eq, ℕ, is_some,
  is_none, if◌then◌else◌,
}
use coderoom.Participant.{
  Participant, Status, status_is, starting, attached, keepalive, working, crashed, is_routable,
}
use Colors.{ColorAllocator, next}

pub record Registry : Type 0 where
  pub participants : Dict String Participant
  pub colors : ColorAllocator

pub data RegistryError : Type 0 where
  participant_nil alias_empty : RegistryError
  already_registered : String → RegistryError
  not_found : String → RegistryError

unfoldable pub new_registry : Registry
new_registry = record { participants = []; colors = record { next_index = 0; used = [] } }

abbrev pub with_color : String → Participant → Participant
with_color color p = record p { view = record p.view { color = color } }

-- `attempts` is the fuel of the search for a colour.
module _ (participant_color : ℕ → ℕ → String) (attempts : ℕ) where
  -- `none` if the search for a fresh colour did not end.
  unfoldable pub add : Option Participant → Registry → Option (Registry × Option RegistryError)
  add none r = some (r, some participant_nil)
  add (some p) r =
      if p.view.alias == ""
      then some (r, some alias_empty)
      else if is_some (Dict.get p.view.alias r.participants)
      then some (r, some (already_registered p.view.alias))
      else elim (next participant_color attempts r.colors) [
        | none ↦ none
        | some (color, colors) ↦ some (
          record {
            participants = Dict.put p.view.alias (with_color color p) r.participants;
            colors = colors;
          },
          none,
        )
      ]

unfoldable pub get : String → Registry → Option Participant
get alias r = Dict.get alias r.participants

unfoldable pub remove : String → Registry → Registry × Option RegistryError
remove alias r =
    if is_none (Dict.get alias r.participants)
    then (r, some (not_found alias))
    else (record r { participants = Dict.delete alias r.participants }, none)

unfoldable pub list : Registry → List Participant
list r = Dict.values r.participants

abbrev select : (Participant → Bool) → List Participant → List Participant
select test [] = []
select test (p ∷ ps) = let rest = select test ps in if test p then p ∷ rest else rest

abbrev has_any : (Participant → Bool) → List Participant → Bool
has_any test [] = false
has_any test (p ∷ ps) = test p || has_any test ps

unfoldable pub list_available : Registry → List Participant
unfolding list
list_available r = select (λ p. is_some p.agent && is_routable p.view) (list r)

-- `ListStarting`, `ListCrashed` and `ListWorking` are its three uses.
unfoldable pub list_status : Status → Registry → List Participant
unfolding list
list_status st r = select (λ p. status_is p.view.status st) (list r)

unfoldable pub has_status : Status → Registry → Bool
unfolding list
has_status st r = has_any (λ p. status_is p.view.status st) (list r)

-- The disjunction of `Session.HasAnyActivityParticipants`.
unfoldable pub has_any_activity : Registry → Bool
has_any_activity r =
    has_status starting r
    || (has_status attached r
        || (has_status keepalive r || (has_status working r || has_status crashed r)))
