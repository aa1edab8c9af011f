-- ===== src/Participant/Registry/Colors.antt =====
-- internal/participant/colors.go: the search for a colour that no participant has had. Its loop has
-- no bound in the code; here it has fuel, the number of its attempts.
use coderoom.Prelude.Sets
use coderoom.Prelude.{
  ℕ, zero, suc, ◌+◌, String, ◌≡◌, true, false, sym, ap, Option, none, some, List, arith, string_eq,
  if◌then◌else◌, inl, inr, Option-cases, Bool-cases, subst, ◌↔◌,
}

pub record ColorAllocator : Type 0 where
  pub next_index : ℕ
  pub used : List String

module _ (participant_color : ℕ → ℕ → String) where
  -- The loop of `next`, from a given attempt.
  search_color : ℕ → ℕ → ℕ → List String → Option String
  search_color zero index attempt used = none
  search_color (suc fuel) index attempt used =
      let rest = search_color fuel index (suc attempt) used in
      let color = participant_color index attempt in
      if Sets.contains used color then rest else some color

  -- `none` if none of so many attempts gives a new colour
  unfoldable pub next : ℕ → ColorAllocator → Option (String × ColorAllocator)
  unfolding search_color
  next attempts a = elim (search_color attempts a.next_index 0 a.used) [
    | none ↦ none
    | some color ↦
        some (color, record { next_index = suc a.next_index; used = Sets.insert color a.used })
  ]

  search_color-fresh :
      (fuel index attempt : ℕ) (used : List String) (c : String)
      → search_color fuel index attempt used ≡ some c
      → Sets.contains used c ≡ false
  unfolding search_color
  search_color-fresh zero index attempt used c h = ground arith
  search_color-fresh (suc fuel) index attempt used c h =
      ground (arith, search_color-fresh fuel index (suc attempt) used c)

  -- So many attempts from a given one give colours that are in use.
  abbrev pub InUse : ℕ → ℕ → List String → ℕ → Type 0
  InUse index attempt used zero = Unit
  InUse index attempt used (suc i) =
      (Sets.contains used (participant_color index attempt) ≡ true)
      × InUse index (suc attempt) used i

  -- The colour of the first attempt, from a given one, that is not in use.
  abbrev pub FirstUnused : ℕ → ℕ → List String → String → Type 0
  FirstUnused index attempt used c =
      (i : ℕ) × (participant_color index (attempt + i) ≡ c)
      × (Sets.contains used c ≡ false)
      × InUse index attempt used i

  search_color-FirstUnused :
      (fuel index attempt : ℕ) (used : List String) (c : String)
      → search_color fuel index attempt used ≡ some c
      → FirstUnused index attempt used c
  unfolding search_color
  search_color-FirstUnused zero index attempt used c h = ground arith
  search_color-FirstUnused (suc fuel) index attempt used c h =
      elim (Bool-cases (Sets.contains used (participant_color index attempt))) [
        | inl e ↦
            let (i, same, fresh, before) =
              search_color-FirstUnused fuel index (suc attempt) used c (ground (arith, e)) in
            let shift : suc attempt + i ≡ attempt + suc i = omega arith in
            (suc i, subst (λ n. participant_color index n ≡ c) shift same, fresh, (e, before))
        | inr e ↦
            let plain : attempt ≡ attempt + 0 = omega arith in
            let same : participant_color index attempt ≡ c = ground (arith, e) in
            (
              0,
              subst (λ n. participant_color index n ≡ c) plain same,
              subst (λ d. Sets.contains used d ≡ false) same e,
              tt,
            )
      ]

  FirstUnused-search_color :
      (i index attempt : ℕ) (used : List String)
      → Sets.contains used (participant_color index (attempt + i)) ≡ false
      → InUse index attempt used i
      → search_color (suc i) index attempt used ≡ some (participant_color index (attempt + i))
  unfolding search_color
  FirstUnused-search_color zero index attempt used h v =
      let same : attempt + 0 ≡ attempt = omega arith in
      let fresh = subst (λ n. Sets.contains used (participant_color index n) ≡ false) same h in
      ground (arith, fresh, ap (λ n. participant_color index n) same)
  FirstUnused-search_color (suc i) index attempt used h v =
      let shift : attempt + suc i ≡ suc attempt + i = omega arith in
      let fresh = subst (λ n. Sets.contains used (participant_color index n) ≡ false) shift h in
      ground (
        arith,
        v.0,
        FirstUnused-search_color i index (suc attempt) used fresh v.1,
        ap (λ n. participant_color index n) shift,
      )

  search_color_ends :
      (i index attempt : ℕ) (used : List String)
      → Sets.contains used (participant_color index (attempt + i)) ≡ false
      → (c : String) × (search_color (suc i) index attempt used ≡ some c)
  unfolding search_color
  search_color_ends zero index attempt used h =
      let same : attempt + 0 ≡ attempt = omega arith in
      let fresh = subst (λ n. Sets.contains used (participant_color index n) ≡ false) same h in
      (participant_color index attempt, ground (arith, fresh))
  search_color_ends (suc i) index attempt used h =
      let shift : attempt + suc i ≡ suc attempt + i = omega arith in
      let (c, e) =
        search_color_ends i index (suc attempt) used
          (subst (λ n. Sets.contains used (participant_color index n) ≡ false) shift h) in
      elim (Bool-cases (Sets.contains used (participant_color index attempt))) [
        | inl u ↦ (c, ground (arith, u, e))
        | inr u ↦ (participant_color index attempt, ground (arith, u))
      ]

  -- The colour that it yields is new, and is recorded as used beside the earlier ones.
  pub next-fresh :
      (attempts : ℕ) (a b : ColorAllocator) (c : String)
      → next attempts a ≡ some (c, b)
      → (Sets.contains a.used c ≡ false) × (b.used ≡ Sets.insert c a.used)
  unfolding next
  next-fresh attempts a b c h = ground (arith, search_color-fresh attempts a.next_index 0 a.used c)

-- The unbounded loop ends, that is enough attempts give a colour, exactly if for the next index some
-- attempt gives a colour that is not in use; where all of them are in use it never ends. And it ends
-- with a given colour and allocator exactly if the colour is that of the first such attempt, and the
-- allocator has it among the used ones and is at the next index.
pub next_lem :
    (participant_color : ℕ → ℕ → String) (a b : ColorAllocator) (c : String)
    → (((attempts : ℕ) × (r : String × ColorAllocator) × (next participant_color attempts a
            ≡ some r))
        ↔ ((i : ℕ) × (Sets.contains a.used (participant_color a.next_index i) ≡ false)))
      × (((attempts : ℕ) × (next participant_color attempts a ≡ some (c, b))) ↔ (
          FirstUnused participant_color a.next_index 0 a.used c
          × (b ≡ record { next_index = suc a.next_index; used = Sets.insert c a.used })))
unfolding next
next_lem participant_color a b c = (
  (
    λ (attempts, r, h).
        elim (Option-cases (search_color participant_color attempts a.next_index 0 a.used)) [
          | inl e ↦ ground arith
          | inr (d, e) ↦
              let (i, same, fresh, before) =
                search_color-FirstUnused participant_color attempts a.next_index 0 a.used d e in
              let plain : 0 + i ≡ i = omega arith in
              (i, rw plain at (subst (λ x. Sets.contains a.used x ≡ false) (sym same) fresh))
        ],
    λ (i, fresh).
        let plain : 0 + i ≡ i = omega arith in
        let (d, e) =
          search_color_ends participant_color i a.next_index 0 a.used (rw (← plain) at fresh) in
        (
          suc i,
          (d, record { next_index = suc a.next_index; used = Sets.insert d a.used }),
          ground (arith, e),
        ),
  ),
  (
    λ (attempts, h). (
      search_color-FirstUnused participant_color attempts a.next_index 0 a.used c (ground arith),
      ground arith,
    ),
    λ ((i, same, fresh, before), e).
        let found =
          FirstUnused-search_color participant_color i a.next_index 0 a.used
            (subst (λ x. Sets.contains a.used x ≡ false) (sym same) fresh) before in
        (suc i, ground (arith, found, same, e)),
  ),
)
