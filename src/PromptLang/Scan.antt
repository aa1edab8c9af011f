-- ===== src/PromptLang/Scan.antt =====
-- internal/promptlang/parse.go: tokens and identifiers. A text is its code points; `TrimSpace` and
-- `IndexAny` are those of the package `strings`.
use Prim.Native.Char.{Char, code}
use Prim.Native.String.{String}
use coderoom.Prelude.Sets
use coderoom.Prelude.{
  ℕ, ◌+◌, ◌-◌, ◌*◌, Bool, true, false, not, ◌&&◌, ◌||◌, Option, none, some, List, [], ◌∷◌, ◌==◌,
  string_eq, nat_eq, leb, if◌then◌else◌,
}

-- `unicode.IsSpace`
abbrev pub is_space : Char → Bool
is_space c =
    let n = code c in
    (leb 9 n && leb n 13)
    || (n == 32
        || (n == 133
            || (n == 160
                || (n == 5760
                    || ((leb 8192 n && leb n 8202)
                        || (n == 8232
                            || (n == 8233 || (n == 8239 || (n == 8287 || n == 12288)))))))))

-- A byte of " \t\r\n".
abbrev pub is_separator : Char → Bool
is_separator c = code c == 32 || (code c == 9 || (code c == 13 || code c == 10))

unfoldable pub trim_left : String → String
trim_left String.[] = ""
trim_left (String.◌∷◌ c s) = let rest = trim_left s in if is_space c then rest else String.◌∷◌ c s

abbrev pub is_empty_text : String → Bool
is_empty_text String.[] = true
is_empty_text (String.◌∷◌ c s) = false

unfoldable pub trim_right : String → String
trim_right String.[] = ""
trim_right (String.◌∷◌ c s) =
    let rest = trim_right s in if is_space c && is_empty_text rest then "" else String.◌∷◌ c rest

-- `strings.TrimSpace`
unfoldable pub trim_space : String → String
trim_space s = trim_right (trim_left s)

-- The text at and after the first separator is cut off.
unfoldable pub cut_token : String → String × String
cut_token String.[] = ("", "")
cut_token (String.◌∷◌ c s) =
    let (token, rest) = cut_token s in
    if is_separator c then ("", s) else (String.◌∷◌ c token, rest)

-- `LastIndexAny` and the two slices at the index.
unfoldable pub cut_last : String → Option (String × String)
cut_last String.[] = none
cut_last (String.◌∷◌ c s) = elim (cut_last s) [
  | some (front, back) ↦ some (String.◌∷◌ c front, back)
  | none ↦ if is_separator c then some ("", s) else none
]

unfoldable pub pop_token : String → String × String
pop_token input = elim (cut_last (trim_space input)) [
  | none ↦ ("", trim_space input)
  | some (front, back) ↦ (trim_space front, back)
]

-- `strings.Cut(s, " ")`
unfoldable pub cut_space : String → Option (String × String)
cut_space String.[] = none
cut_space (String.◌∷◌ c s) =
    let rest = cut_space s in
    if code c == 32
    then some ("", s)
    else elim rest [ none ↦ none | some (before, after) ↦ some (String.◌∷◌ c before, after) ]

-- A field that goes on, and the fields after it.
abbrev pub extend_field : Char → Bool → List String → List String
extend_field c true fs = String.◌∷◌ c "" ∷ fs
extend_field c false [] = String.◌∷◌ c "" ∷ []
extend_field c false (f ∷ fs) = String.◌∷◌ c f ∷ fs

-- Whether a text begins with a space or is empty, which ends a field before it.
abbrev pub ends_field : String → Bool
ends_field String.[] = true
ends_field (String.◌∷◌ c s) = is_space c

-- `strings.Fields`
unfoldable pub fields : String → List String
fields String.[] = []
fields (String.◌∷◌ c s) =
    let rest = fields s in if is_space c then rest else extend_field c (ends_field s) rest

abbrev pub is_ascii_letter : Char → Bool
is_ascii_letter c =
    (leb b'a' (code c) && leb (code c) b'z') || (leb b'A' (code c) && leb (code c) b'Z')

abbrev pub is_digit : Char → Bool
is_digit c = leb b'0' (code c) && leb (code c) b'9'

abbrev pub is_identifier_part : Char → Bool
is_identifier_part c = is_digit c || (code c == b'-' || code c == b'_')

-- The loop of `isIdentifier` from the second character on.
unfoldable pub identifier_rest : String → Bool
identifier_rest String.[] = true
identifier_rest (String.◌∷◌ c s) = (is_ascii_letter c || is_identifier_part c) && identifier_rest s

unfoldable pub is_identifier : String → Bool
unfolding identifier_rest
is_identifier String.[] = false
is_identifier (String.◌∷◌ c s) = is_ascii_letter c && identifier_rest s

abbrev pub reserved_commands : List String
reserved_commands =
    "invite" ∷ "remove" ∷ "cancel" ∷ "handoff" ∷ "who" ∷ "help" ∷ "quit" ∷ "policy" ∷ "shell"
    ∷ "def" ∷ "loop" ∷ "debugview" ∷ "debugrows" ∷ []

unfoldable pub is_reserved_command : String → Bool
is_reserved_command name = Sets.contains reserved_commands name

-- `isDecimalInteger`, which refuses the empty text
unfoldable pub all_digits : String → Bool
all_digits String.[] = true
all_digits (String.◌∷◌ c s) = is_digit c && all_digits s

abbrev pub is_decimal_integer : String → Bool
is_decimal_integer s = not (is_empty_text s) && all_digits s

-- The value of decimal digits after those that gave `n`.
unfoldable pub decimal_value : ℕ → String → ℕ
decimal_value n String.[] = n
decimal_value n (String.◌∷◌ c s) = decimal_value (10 * n + (code c - b'0')) s

-- The largest `int`.
abbrev pub max_int : ℕ
max_int = 9223372036854775807

-- `strconv.Atoi` of decimal digits refuses what is out of range.
unfoldable pub parse_positive_integer : String → Option ℕ
parse_positive_integer s =
    if not (is_decimal_integer s)
    then none
    else if not (leb (decimal_value 0 s) max_int)
    then none
    else if decimal_value 0 s == 0
    then none
    else some (decimal_value 0 s)
