-- ===== src/Policy.antt =====
-- internal/policy/policy.go: the enabled room policies. `none` is a `Set` that `NewSet` did not
-- build; the lock is left out, as each method runs under it from end to end.
mod Tests
use coderoom.Prelude.Sets
use coderoom.Prelude.{
  String, ◌≡◌, Bool, false, not, ◌&&◌, ◌||◌, Option, none, some, List, [], arith, ◌==◌, string_eq,
  if◌then◌else◌, is_none, Option-cases, inl, inr,
}

abbrev pub send_notices : String
send_notices = "send-notices"

abbrev pub echo_invites : String
echo_invites = "echo-invites"

pub record PolicySet : Type 0 where
  pub state : Option (List String)

pub data PolicyError : Type 0 where
  unknown_policy : String → PolicyError
  not_initialized : PolicyError

unfoldable pub new_set : PolicySet
new_set = record { state = some [] }

unfoldable pub enable : String → PolicySet → PolicySet × Option PolicyError
enable name p =
    if not (name == send_notices) && not (name == echo_invites)
    then (p, some (unknown_policy name))
    else elim p.state [
      | none ↦ (p, some not_initialized)
      | some names ↦ (record { state = some (Sets.insert name names) }, none)
    ]

unfoldable pub enabled : String → PolicySet → Bool
enabled name p = elim p.state [ none ↦ false | some names ↦ Sets.contains names name ]

-- After `Enable`, a policy is enabled exactly if it was before, or it is the one just enabled and
-- the call returned no error.
pub enabled-enable :
    (name other : String) (p : PolicySet)
    → let (q, err) = enable name p in
      enabled other q ≡ (enabled other p || ((name == other) && is_none err))
unfolding enable enabled
enabled-enable name other p = elim (Option-cases p.state) [
  | inl e ↦ ground arith
  | inr (names, e) ↦ ground (arith, Sets.contains-insert name other names)
]
