-- ===== src/Room/Marks.antt =====
-- internal/room/handoff.go: the marks of the handoff sources. At most one record of an alias is
-- marked, and it is the one that the index of latest outputs names.
use coderoom.Prelude.Dict
use coderoom.Prelude.Sets
use coderoom.Prelude.{
  ℕ, zero, suc, String, ◌≡◌, refl, ◌≢◌, Bool, true, false, Option, none, some, List, [], ◌∷◌, arith,
  string_eq, nat_eq, length, inl, inr, Option-cases, Bool-cases, sym, ◌∙◌, subst, if◌then◌else◌,
  get_elem?, ◌⊎◌, ◌==◌, ap,
}
use mathlib.Core.Option.{some-injective}
use coderoom.Session.Event.{HandoffSource}
use coderoom.Room.Records.{Record, Room, mark, get_elem?-mark_ne}
use mathlib.Core.Bool.{false≢true}
use coderoom.Room.Handoff.{
  index_of, clear_latest_handoff_source, swap_latest_handoff_source, refresh_latest_handoff_source,
  latest_handoff_source, scan_handoff, handoff_eligible_output, has_marked,
}

-- The record at an index is `alias`'s, and its mark is `m`.
pub record At (rs : List Record) (i : ℕ) (alias : String) (m : Bool) : Type 0 where
  pub found : Record
  pub here : get_elem? rs i ≡ some found
  pub owner : found.alias ≡ alias
  pub marked : found.handoff_source ≡ m

-- Records `rs` under the index of latest outputs `g`: what the index names is marked and its
-- alias's, and whatever is marked is what the index names for its alias.
pub record Marks (rs : List Record) (g : String → Option ℕ) : Type 0 where
  pub pointed : (a : String) (i : ℕ) → g a ≡ some i → At rs i a true
  pub named :
      (i : ℕ) (x : Record) → get_elem? rs i ≡ some x → x.handoff_source ≡ true → g x.alias ≡ some i

abbrev pub index_of_room : Room → String → Option ℕ
index_of_room r a = Dict.get a r.latest_handoff

abbrev pub Marked : Room → Type 0
Marked r = Marks r.records (index_of_room r)

get_elem?-mark :
    (b : Bool) (i : ℕ) (rs : List Record) (x : Record)
    → get_elem? rs i ≡ some x
    → get_elem? (mark b i rs) i ≡ some (record x { handoff_source = b })
unfolding mark
get_elem?-mark b i [] x h = cc
get_elem?-mark b zero (y ∷ ys) x h = ground arith
get_elem?-mark b (suc i) (y ∷ ys) x h = get_elem?-mark b i ys x h

-- The mark of another record, and the record itself, are kept by a write at `i`.
At-ne :
    (b m : Bool) (i j : ℕ) (a : String) (rs : List Record)
    → i ≢ j
    → At rs j a m
    → At (mark b i rs) j a m
At-ne b m i j a rs ne h = record {
  found = h.found;
  here = get_elem?-mark_ne b i j rs ne ∙ h.here;
  owner = h.owner;
  marked = h.marked;
}

At-mark :
    (b m : Bool) (i : ℕ) (a : String) (rs : List Record) → At rs i a m → At (mark b i rs) i a b
At-mark b m i a rs h = record {
  found = record h.found { handoff_source = b };
  here = get_elem?-mark b i rs h.found h.here;
  owner = h.owner;
  marked = refl;
}

-- Two owners of one record are one.
At-alias :
    (m n : Bool) (i : ℕ) (a b : String) (rs : List Record) → At rs i a m → At rs i b n → a ≡ b
At-alias m n i a b rs h k =
    let e = some-injective _ _ (sym h.here ∙ k.here) in
    sym h.owner ∙ (ap (λ (x : Record). x.alias) e ∙ k.owner)

-- What a scan finds is a record of the alias.
scan-At :
    (r : Room) (a : String) (n : ℕ) (src : HandoffSource)
    → scan_handoff r a n ≡ some src
    → (m : Bool) × At r.records src.record_index a m
unfolding scan_handoff handoff_eligible_output
scan-At r a zero src h = cc
scan-At r a (suc n) src h = elim (Option-cases (handoff_eligible_output r n a)) [
  | inl e ↦ scan-At r a n src (ground (arith, e))
  | inr (text, e) ↦ elim (Option-cases (get_elem? r.records n)) [
    | inl q ↦ ground arith
    | inr (x, q) ↦ (
      x.handoff_source,
      record {
        found = x;
        here = ground arith;
        owner = ground (arith, string_eq.eqb_iff x.alias a);
        marked = refl;
      },
    )
  ]
]

-- The record is the one written, or another.
mark_cases :
    (b : Bool) (p i : ℕ) (rs : List Record) (x : Record)
    → get_elem? (mark b p rs) i ≡ some x
    → ((i ≡ p) × (x.handoff_source ≡ b)) ⊎ ((p ≢ i) × (get_elem? rs i ≡ some x))
unfolding mark
mark_cases b p i [] x h = ground arith
mark_cases b zero zero (y ∷ ys) x h = inl (refl, ground arith)
mark_cases b zero (suc i) (y ∷ ys) x h = inr (λ e. absurd (omega (arith, e)), h)
mark_cases b (suc p) zero (y ∷ ys) x h = inr (λ e. absurd (omega (arith, e)), h)
mark_cases b (suc p) (suc i) (y ∷ ys) x h = elim (mark_cases b p i ys x h) [
  | inl (e, m) ↦ inl (ap suc e, m)
  | inr (ne, q) ↦ inr (λ e. ne (omega (arith, e)), q)
]

-- The latest output of an alias is unmarked and forgotten.
unmark-Marks :
    (rs : List Record) (g k : String → Option ℕ) (alias : String) (p : ℕ)
    → Marks rs g
    → g alias ≡ some p
    → ((a : String) → k a ≡ (if alias == a then none else g a))
    → Marks (mark false p rs) k
unmark-Marks rs g k alias p v here new = record {
  pointed = λ a i h.
      let other : (alias == a) ≡ false = ground (arith, new a) in
      let same : g a ≡ some i = ground (arith, new a) in
      let ne : p ≢ i = λ e.
        let q =
          At-alias true true i a alias rs (v.pointed a i same)
            (subst (λ n. At rs n alias true) e (v.pointed alias p here)) in
        ground (arith, string_eq.eqb_iff alias a) in
      At-ne false true p i a rs ne (v.pointed a i same);
  named = λ i x h m. elim (mark_cases false p i rs x h) [
    | inl (e, off) ↦ ground arith
    | inr (ne, q) ↦
        let old = v.named i x q m in ground (arith, new x.alias, string_eq.eqb_iff alias x.alias)
  ];
}

forget-Marks :
    (rs : List Record) (g k : String → Option ℕ) (alias : String)
    → Marks rs g
    → g alias ≡ none
    → ((a : String) → k a ≡ (if alias == a then none else g a))
    → Marks rs k
forget-Marks rs g k alias v gone new = record {
  pointed = λ a i h. v.pointed a i (ground (arith, new a));
  named = λ i x h m.
      let old = v.named i x h m in ground (arith, new x.alias, string_eq.eqb_iff alias x.alias);
}

-- A record of an alias without a latest output is marked and named.
mark-Marks :
    (rs : List Record) (g k : String → Option ℕ) (alias : String) (n : ℕ) (m : Bool)
    → Marks rs g
    → g alias ≡ none
    → At rs n alias m
    → ((a : String) → k a ≡ (if alias == a then some n else g a))
    → Marks (mark true n rs) k
mark-Marks rs g k alias n m v gone at new = record {
  pointed = λ a i h. elim (Bool-cases (alias == a)) [
    | inl e ↦
        let same : alias ≡ a = (string_eq.eqb_iff alias a).0 e in
        let i_is : n ≡ i = ground (arith, new a) in
        subst (λ b. At (mark true n rs) i b true) same
          (subst (λ j. At (mark true n rs) j alias true) i_is (At-mark true m n alias rs at))
    | inr e ↦
        let old : g a ≡ some i = ground (arith, new a) in
        let ne : n ≢ i = λ q.
          let r =
            At-alias true m i a alias rs (v.pointed a i old) (subst (λ j. At rs j alias m) q at) in
          ground (arith, string_eq.eqb_iff alias a) in
        At-ne true true n i a rs ne (v.pointed a i old)
  ];
  named = λ i x h on. elim (mark_cases true n i rs x h) [
    | inl (e, q) ↦
        let there =
          subst (λ j. At (mark true n rs) j alias true) (sym e) (At-mark true m n alias rs at) in
        let same : x.alias ≡ alias =
          ap (λ (y : Record). y.alias) (some-injective _ _ (sym h ∙ there.here)) ∙ there.owner in
        ground (arith, new x.alias, string_eq.eqb_iff alias x.alias)
    | inr (ne, q) ↦
        let old = v.named i x q on in ground (arith, new x.alias, string_eq.eqb_iff alias x.alias)
  ];
}

same-Marks :
    (rs : List Record) (g k : String → Option ℕ)
    → Marks rs g
    → ((a : String) → k a ≡ g a)
    → Marks rs k
same-Marks rs g k v e = record {
  pointed = λ a i h. v.pointed a i (sym (e a) ∙ h);
  named = λ i x h m. e x.alias ∙ v.named i x h m;
}

has_marked-At :
    (m : Bool) (i : ℕ) (a : String) (r : Room) → At r.records i a m → has_marked (some i) r ≡ m
unfolding has_marked
has_marked-At m i a r at = rw (at.here, has_marked) at.marked

has_marked-none : (r : Room) → has_marked none r ≡ false
unfolding has_marked
has_marked-none r = refl

-- Only the record that the index names for its alias is marked.
unnamed :
    (m : Bool) (n : ℕ) (alias : String) (rs : List Record) (g : String → Option ℕ)
    → Marks rs g
    → At rs n alias m
    → g alias ≢ some n
    → m ≡ false
unnamed false n alias rs g v at ne = refl
unnamed true n alias rs g v at ne =
    absurd (ne (ap g (sym at.owner) ∙ v.named n at.found at.here at.marked))

put_same :
    (alias a : String) (n : ℕ) (l : Dict.Dict String ℕ)
    → Dict.get alias l ≡ some n
    → Dict.get a (Dict.put alias n l) ≡ Dict.get a l
put_same alias a n l h = elim (Bool-cases (alias == a)) [
  | inl e ↦
      let same = (string_eq.eqb_iff alias a).0 e in ground (arith, Dict.get-put alias a n l, same)
  | inr e ↦ ground (arith, Dict.get-put alias a n l)
]

clear-Marked :
    (alias : String) (prev : Option ℕ) (r : Room)
    → Dict.get alias r.latest_handoff ≡ prev
    → Marked r
    → Marked (clear_latest_handoff_source alias prev r).0
unfolding clear_latest_handoff_source
clear-Marked alias none r h v =
    unfold has_marked in
    forget-Marks r.records (index_of_room r) _ alias v h
      (λ a. Dict.get-delete alias a r.latest_handoff)
clear-Marked alias (some p) r h v =
    let s = record r { latest_handoff = Dict.delete alias r.latest_handoff } in
    rw (has_marked-At true p alias s (v.pointed alias p h)) (
      unmark-Marks r.records (index_of_room r) _ alias p v h
        (λ a. Dict.get-delete alias a r.latest_handoff))

-- The index that a swap is given, if any, is a record of the alias.
abbrev Owned : Room → String → Option ℕ → Type 0
Owned r alias none = Unit
Owned r alias (some n) = (m : Bool) × At r.records n alias m

swap-Marked :
    (alias : String) (prev next : Option ℕ) (r : Room)
    → Dict.get alias r.latest_handoff ≡ prev
    → Owned r alias next
    → Marked r
    → Marked (swap_latest_handoff_source alias prev next r).0
unfolding swap_latest_handoff_source
swap-Marked alias none none r h own v =
    unfold has_marked in
    forget-Marks r.records (index_of_room r) _ alias v h
      (λ a. Dict.get-delete alias a r.latest_handoff)
swap-Marked alias (some p) none r h own v =
    rw (has_marked-At true p alias r (v.pointed alias p h)) (
      unmark-Marks r.records (index_of_room r) _ alias p v h
        (λ a. Dict.get-delete alias a r.latest_handoff))
swap-Marked alias none (some n) r h (m, at) v =
    let off = unnamed m n alias r.records (index_of_room r) v at (λ e. ground arith) in
    let s = record r { latest_handoff = Dict.put alias n r.latest_handoff } in
    rw (has_marked-none r, has_marked-At m n alias s at, off)
      (mark-Marks r.records (index_of_room r) _ alias n m v h at
        (λ a. Dict.get-put alias a n r.latest_handoff))
swap-Marked alias (some p) (some n) r h (m, at) v = elim (Bool-cases (p == n)) [
  | inl e ↦
      let same : p ≡ n = (nat_eq.eqb_iff p n).0 e in
      let s = record r { latest_handoff = Dict.put alias n r.latest_handoff } in
      let there = subst (λ i. At r.records i alias true) same (v.pointed alias p h) in
      let old : index_of_room r alias ≡ some n = h ∙ ap (λ i. some i) same in
      rw (has_marked-At true p alias r (v.pointed alias p h), e, has_marked-At true n alias s there)
        (same-Marks r.records (index_of_room r) _ v (λ a. put_same alias a n r.latest_handoff old))
  | inr e ↦
      let ne : p ≢ n = λ q. absurd (false≢true (sym e ∙ (nat_eq.eqb_iff p n).1 q)) in
      let off =
        unnamed m n alias r.records (index_of_room r) v at
          (λ q. ne (some-injective _ _ (sym h ∙ q))) in
      let rs = mark false p r.records in
      let at' = At-ne false m p n alias r.records ne at in
      let s = record r { records = rs; latest_handoff = Dict.put alias n r.latest_handoff } in
      let g : String → Option ℕ = λ a. if alias == a then none else index_of_room r a in
      let cleared = unmark-Marks r.records (index_of_room r) g alias p v h (λ a. refl) in
      rw (has_marked-At true p alias r (v.pointed alias p h), e, has_marked-At m n alias s at', off)
        (mark-Marks rs g _ alias n m cleared (ground (arith, string_eq.eqb_iff alias alias)) at'
          (λ a. ground (arith, Dict.get-put alias a n r.latest_handoff)))
]

index_of-Owned : (r : Room) (a : String) → Owned r a (index_of (latest_handoff_source a r))
unfolding latest_handoff_source
index_of-Owned r a = elim (Bool-cases (Sets.contains r.members a)) [
  | inl e ↦ elim (Option-cases (scan_handoff r a (length r.records))) [
    | inl q ↦ rw (e, q) tt
    | inr (src, q) ↦ rw (e, q) (scan-At r a (length r.records) src q)
  ]
  | inr e ↦ rw e tt
]

pub refresh-Marked :
    (alias : String) (r : Room) → Marked r → Marked (refresh_latest_handoff_source alias r).0
unfolding refresh_latest_handoff_source
refresh-Marked alias r v = elim (Bool-cases (Sets.contains r.members alias)) [
  | inl e ↦ rw e (swap-Marked alias _ _ r refl (index_of-Owned r alias) v)
  | inr e ↦ rw e (clear-Marked alias _ r refl v)
]
