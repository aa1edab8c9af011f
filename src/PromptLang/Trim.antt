-- ===== src/PromptLang/Trim.antt =====
-- internal/promptlang/parse.go: what trimming leaves, and what the tokens and fields of a text hold.
use Prim.Native.Char.{Char}
use Prim.Native.String.{String}
use coderoom.Prelude.{
  ◌≡◌, refl, Bool, true, false, not, ◌&&◌, List, [], ◌∷◌, All, inl, inr, Bool-cases,
}
use coderoom.PromptLang.Scan.{
  is_space, trim_left, trim_right, trim_space, is_empty_text, fields, extend_field, ends_field,
}

-- A text that does not begin with a space.
abbrev begins_solid : String → Bool
begins_solid String.[] = true
begins_solid (String.◌∷◌ c s) = not (is_space c)

begins_solid-trim_left : (s : String) → begins_solid (trim_left s) ≡ true
unfolding trim_left
begins_solid-trim_left String.[] = refl
begins_solid-trim_left (String.◌∷◌ c s) = elim (Bool-cases (is_space c)) [
  | inl e ↦ rw e (begins_solid-trim_left s)
  | inr e ↦ rw (e, e) refl
]

trim_left_of_solid : (s : String) → begins_solid s ≡ true → trim_left s ≡ s
unfolding trim_left
trim_left_of_solid String.[] h = refl
trim_left_of_solid (String.◌∷◌ c s) h = elim (Bool-cases (is_space c)) [
  | inl e ↦ cc
  | inr e ↦ rw e refl
]

trim_right_idem : (s : String) → trim_right (trim_right s) ≡ trim_right s
unfolding trim_right
trim_right_idem String.[] = refl
trim_right_idem (String.◌∷◌ c s) = elim (Bool-cases (is_space c && is_empty_text (trim_right s))) [
  | inl e ↦ rw e refl
  | inr e ↦ rw (e, trim_right_idem s, e) refl
]

begins_solid-trim_right : (s : String) → begins_solid s ≡ true → begins_solid (trim_right s) ≡ true
unfolding trim_right
begins_solid-trim_right String.[] h = refl
begins_solid-trim_right (String.◌∷◌ c s) h =
    elim (Bool-cases (is_space c && is_empty_text (trim_right s))) [
      | inl e ↦ rw e refl
      | inr e ↦ rw e h
    ]

pub trim_space_idem : (s : String) → trim_space (trim_space s) ≡ trim_space s
unfolding trim_space
trim_space_idem s =
    let solid = begins_solid-trim_right (trim_left s) (begins_solid-trim_left s) in
    rw (trim_left_of_solid (trim_right (trim_left s)) solid) (trim_right_idem (trim_left s))

-- A text that a field can be: not empty, and without a space.
abbrev pub no_space : String → Bool
no_space String.[] = true
no_space (String.◌∷◌ c s) = not (is_space c) && no_space s

abbrev pub IsField : String → Type 0
IsField f = (no_space f ≡ true) × (is_empty_text f ≡ false)

extend_field-All :
    (c : Char) (b : Bool) (fs : List String)
    → is_space c ≡ false
    → All IsField fs
    → All IsField (extend_field c b fs)
extend_field-All c true fs h v = (rw h (refl, refl), v)
extend_field-All c false [] h v = (rw h (refl, refl), v)
extend_field-All c false (f ∷ fs) h v = (rw h (v.0.0, refl), v.1)

pub fields-All : (s : String) → All IsField (fields s)
unfolding fields
fields-All String.[] = tt
fields-All (String.◌∷◌ c s) = elim (Bool-cases (is_space c)) [
  | inl e ↦ rw e (fields-All s)
  | inr e ↦ rw e (extend_field-All c (ends_field s) (fields s) e (fields-All s))
]
