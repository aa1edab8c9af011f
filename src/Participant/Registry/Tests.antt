-- ===== src/Participant/Registry/Tests.antt =====
-- internal/participant/registry.go and colors.go with a colour that names its index and attempt.
use Prim.Native.String.{◌++◌ as str_append}
use coderoom.Prelude.{
  ℕ, zero, suc, String, ◌≡◌, ◌↔◌, true, false, is_some, none, some, refl, [], ◌∷◌, string_eq,
  nat_eq,
}
use coderoom.Prelude.Dict
use coderoom.Prelude.Sets
use coderoom.Participant.{Participant, manual, new_participant}
use coderoom.Participant.Registry.{Registry, new_registry, add, with_color}
use coderoom.Participant.Registry.Colors.{ColorAllocator, FirstUnused, next, next_lem}
use coderoom.Participant.Registry.Invariant.{Inv, Inv-new, add-Inv}

-- One colour for each attempt.
abbrev strokes : ℕ → String
strokes zero = ""
strokes (suc n) = str_append "|" (strokes n)

abbrev paint : ℕ → ℕ → String
paint index attempt = strokes attempt

abbrev ann : Participant
ann = new_participant "ann" "coder" manual

abbrev one_of_ann : Registry
one_of_ann = record {
  participants = ("ann", with_color "" ann) ∷ [];
  colors = record { next_index = 1; used = "" ∷ [] };
}

add-Inv_example : Inv one_of_ann
unfolding add new_registry next new_participant Dict.get Sets.contains Dict.put Sets.insert
add-Inv_example = add-Inv paint 1 (some ann) new_registry one_of_ann none Inv-new refl

abbrev two_used : ColorAllocator
two_used = record { next_index = 4; used = "" ∷ "|" ∷ [] }

-- The third attempt is new, and two are not enough.
third_attempt : (next paint 2 two_used ≡ none) × (is_some (next paint 3 two_used) ≡ true)
unfolding next Sets.contains
third_attempt = (refl, refl)

abbrev three_used : ColorAllocator
three_used = record { next_index = 5; used = Sets.insert "||" two_used.used }

next_lem_example :
    (((attempts : ℕ) × (r : String × ColorAllocator) × (next paint attempts two_used ≡ some r))
      ↔ ((i : ℕ) × (Sets.contains two_used.used (paint 4 i) ≡ false)))
    × (((attempts : ℕ) × (next paint attempts two_used ≡ some ("||", three_used))) ↔ (
        FirstUnused paint 4 0 two_used.used "||"
        × (three_used ≡ record { next_index = 5; used = Sets.insert "||" two_used.used })))
next_lem_example = next_lem paint two_used three_used "||"
