-- ===== src/Session/Approvals/Rising.antt =====
-- Lists of numbers that rise, as the numbers of the approval requests do.
use coderoom.Prelude.{ℕ, suc, ◌≤◌, ◌<◌, List, [], ◌∷◌, ◌++◌, arith}

-- The numbers rise strictly from above one bound up to another.
abbrev pub Rising : ℕ → List ℕ → ℕ → Type 0
Rising low [] high = low ≤ high
Rising low (n ∷ ns) high = (low < n) × Rising n ns high

pub Rising-weaken :
    (low low' : ℕ) (ns : List ℕ) (high : ℕ) → low' ≤ low → Rising low ns high → Rising low' ns high
Rising-weaken low low' [] high h r = omega arith
Rising-weaken low low' (n ∷ ns) high h r = (omega arith, r.1)

Rising-extend :
    (low : ℕ) (ns : List ℕ) (high high' : ℕ)
    → high ≤ high'
    → Rising low ns high
    → Rising low ns high'
Rising-extend low [] high high' h r = omega arith
Rising-extend low (n ∷ ns) high high' h r = (r.0, Rising-extend n ns high high' h r.1)

-- A new number goes to the end.
pub Rising-append_last :
    (low : ℕ) (ns : List ℕ) (high : ℕ)
    → Rising low ns high
    → Rising low (ns ++ suc high ∷ []) (suc high)
Rising-append_last low [] high r = (omega arith, omega arith)
Rising-append_last low (n ∷ ns) high r = (r.0, Rising-append_last n ns high r.1)

-- A change of the later part that is sound wherever the part begins.
pub Rising-under :
    (front back back' : List ℕ) (low high high' : ℕ)
    → ((low : ℕ) → Rising low back high → Rising low back' high')
    → Rising low (front ++ back) high
    → Rising low (front ++ back') high'
Rising-under [] back back' low high high' f r = f low r
Rising-under (n ∷ front) back back' low high high' f r =
    (r.0, Rising-under front back back' n high high' f r.1)

-- The later part of a rising list rises.
pub Rising-back :
    (front back : List ℕ) (low high : ℕ)
    → Rising low (front ++ back) high
    → (low' : ℕ) × Rising low' back high
Rising-back [] back low high r = (low, r)
Rising-back (n ∷ front) back low high r = Rising-back front back n high r.1

pub le_of_Rising : (low : ℕ) (ns : List ℕ) (high : ℕ) → Rising low ns high → low ≤ high
le_of_Rising low [] high r = r
le_of_Rising low (n ∷ ns) high r = omega (arith, le_of_Rising n ns high r.1)
