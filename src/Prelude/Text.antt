-- ===== src/Prelude/Text.antt =====
-- Go's string operations over the native texts.
use Prim.Native.Char.{code}
use Prim.Native.Nat.{ℕ, zero, suc, ◌/◌, ◌%◌}
use Prim.Native.String.{String, ◌++◌}
use mathlib.Core.Bool.{Bool, false}
use mathlib.Core.List.{List, [], ◌∷◌}
use coderoom.Prelude.Tests.{nat_beq, ltb, if◌then◌else◌}
use coderoom.Prelude.Int.{ℤ, pos, negsuc}

-- The texts of the list, one after the other: `+`, `Sprintf` and `WriteString`.
abbrev pub concat_text : List String → String
concat_text [] = ""
concat_text (s ∷ ss) = s ++ concat_text ss

-- `strings.Join`
abbrev pub join_text : String → List String → String
join_text sep [] = ""
join_text sep (s ∷ []) = s
join_text sep (s ∷ t ∷ ss) = s ++ (sep ++ join_text sep (t ∷ ss))

-- `strings.HasSuffix(s, "\n")`
unfoldable pub ends_in_newline : String → Bool
ends_in_newline String.[] = false
ends_in_newline (String.◌∷◌ c String.[]) = nat_beq (code c) 10
ends_in_newline (String.◌∷◌ c (String.◌∷◌ d s)) = ends_in_newline (String.◌∷◌ d s)

digit_text : ℕ → String
digit_text zero = "0"
digit_text (suc zero) = "1"
digit_text (suc (suc zero)) = "2"
digit_text (suc (suc (suc zero))) = "3"
digit_text (suc (suc (suc (suc zero)))) = "4"
digit_text (suc (suc (suc (suc (suc zero))))) = "5"
digit_text (suc (suc (suc (suc (suc (suc zero)))))) = "6"
digit_text (suc (suc (suc (suc (suc (suc (suc zero))))))) = "7"
digit_text (suc (suc (suc (suc (suc (suc (suc (suc zero)))))))) = "8"
digit_text _ = "9"

digits_text : ℕ → ℕ → String
digits_text zero n = ""
digits_text (suc fuel) n =
    let higher = digits_text fuel (n / 10) ++ digit_text (n % 10) in
    if ltb n 10 then digit_text n else higher

-- `strconv.Itoa`, and `%d`; a number has fewer digits than its successor's value.
unfoldable pub itoa : ℤ → String
unfolding digit_text digits_text
itoa (pos n) = digits_text (suc n) n
itoa (negsuc n) = "-" ++ digits_text (suc (suc n)) (suc n)
