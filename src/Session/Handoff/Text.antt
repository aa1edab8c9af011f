-- ===== src/Session/Handoff/Text.antt =====
-- internal/session/command_handoff.go: the texts of a handoff, over code points.
use Prim.Native.Char.{Char, code}
use Prim.Native.String.{◌++◌ as str_append}
use coderoom.Prelude.Int.{ℤ, pos, negsuc}
use coderoom.Prelude.Text.{concat_text, join_text, itoa}
use coderoom.Prelude.{
  ℕ, zero, suc, ◌-◌, String, Bool, true, false, not, ◌&&◌, ◌||◌, List, [], ◌∷◌, ◌==◌, string_eq,
  nat_eq, if◌then◌else◌, length, leb,
}
use coderoom.PromptLang.Scan.{trim_space}

pub record HandoffAttempt : Type 0 where
  pub from_alias : String
  pub to_alias : String
  pub barrier : List String
  pub idle_ones : List String
  pub busy_ones : List String
  pub source_text : String
  pub source_index : ℤ

-- The lines of a reason: `strings.FieldsFunc` at line feeds and carriage returns, which leaves out
-- empty ones.
abbrev is_line_end : Char → Bool
is_line_end c = code c == 10 || code c == 13

abbrev add_to_line : Char → Bool → List String → List String
add_to_line c true (l ∷ ls) = str_append (String.◌∷◌ c "") l ∷ ls
add_to_line c true [] = String.◌∷◌ c "" ∷ []
add_to_line c false ls = String.◌∷◌ c "" ∷ ls

-- Whether the text goes on in the line that it begins with.
abbrev goes_on : String → Bool
goes_on String.[] = false
goes_on (String.◌∷◌ c s) = not (is_line_end c)

line_fields : String → List String
line_fields String.[] = []
line_fields (String.◌∷◌ c s) =
    let rest = line_fields s in if is_line_end c then rest else add_to_line c (goes_on s) rest

abbrev trimmed_parts : List String → List String
trimmed_parts [] = []
trimmed_parts (l ∷ ls) =
    let rest = trimmed_parts ls in if trim_space l == "" then rest else trim_space l ∷ rest

unfoldable pub compact_handoff_reason : String → String
unfolding trim_space line_fields
compact_handoff_reason reason = join_text " | " (trimmed_parts (line_fields (trim_space reason)))

abbrev format_handoff_alias_list : List String → String
format_handoff_alias_list aliases = concat_text ("[" ∷ join_text "," aliases ∷ "]" ∷ [])

abbrev index_text : ℤ → String
index_text (negsuc _) = "none"
index_text (pos n) = itoa (pos n)

abbrev busy_text : List String → String
busy_text [] = ""
busy_text (a ∷ others) = concat_text (" busy=" ∷ format_handoff_alias_list (a ∷ others) ∷ [])

unfoldable pub format_handoff_attempt_log : String → HandoffAttempt → List String → String → String
unfolding itoa trim_space
format_handoff_attempt_log status a busy_ones reason = concat_text (
    "handoff "
    ∷ status
    ∷ ": from="
    ∷ a.from_alias
    ∷ " to="
    ∷ a.to_alias
    ∷ " barrier="
    ∷ format_handoff_alias_list a.barrier
    ∷ " idle="
    ∷ format_handoff_alias_list a.idle_ones
    ∷ busy_text busy_ones
    ∷ " source_record="
    ∷ index_text a.source_index
    ∷ (if trim_space reason == "" then "" else concat_text (" reason=" ∷ reason ∷ []))
    ∷ [])

unfoldable pub format_handoff_payload : String → String → String
format_handoff_payload from text = concat_text ("[HANDOFF from " ∷ from ∷ "]\n\n" ∷ text ∷ [])

-- The preview: the first three lines, each cut at 120 columns, and the number of those left out.
abbrev strip_end : String → String → String
strip_end c rest = if rest == "" && c == "\n" then "" else str_append c rest

-- `strings.TrimRight(text, "\n")`
trim_line_feeds : String → String
trim_line_feeds String.[] = ""
trim_line_feeds (String.◌∷◌ c s) = strip_end (String.◌∷◌ c "") (trim_line_feeds s)

abbrev put_on_line : Char → List String → List String
put_on_line c [] = String.◌∷◌ c "" ∷ []
put_on_line c (l ∷ ls) = str_append (String.◌∷◌ c "") l ∷ ls

-- `strings.Split(body, "\n")`
split_lines : String → List String
split_lines String.[] = "" ∷ []
split_lines (String.◌∷◌ c s) =
    let rest = split_lines s in if code c == 10 then "" ∷ rest else put_on_line c rest

rune_count : String → ℕ
rune_count String.[] = 0
rune_count (String.◌∷◌ c s) = suc (rune_count s)

-- `runes[:n]`
take_runes : ℕ → String → String
take_runes zero s = ""
take_runes (suc n) String.[] = ""
take_runes (suc n) (String.◌∷◌ c s) = str_append (String.◌∷◌ c "") (take_runes n s)

abbrev truncate_preview_line : String → String
truncate_preview_line s =
    if leb (rune_count s) 120 then s else concat_text (take_runes 119 s ∷ "…" ∷ [])

abbrev preview_lines : ℕ → List String → List String
preview_lines zero ls = []
preview_lines (suc n) [] = []
preview_lines (suc n) (l ∷ ls) =
    concat_text ("  > " ∷ truncate_preview_line l ∷ []) ∷ preview_lines n ls

unfoldable pub handoff_body_preview : String → String × ℕ
unfolding trim_line_feeds split_lines rune_count take_runes
handoff_body_preview text =
    let body = trim_line_feeds text in
    if body == ""
    then ("", 0)
    else (join_text "\n" (preview_lines 3 (split_lines body)), length (split_lines body) - 3)

unfoldable pub format_handoff_preview : String → String → String → String
unfolding handoff_body_preview itoa
format_handoff_preview from to text =
    let (preview, remaining) = handoff_body_preview text in
    concat_text (
      "[handoff "
      ∷ from
      ∷ " -> "
      ∷ to
      ∷ "]\n  ↦ source: "
      ∷ from
      ∷ " latest output"
      ∷ (if preview == "" then "" else concat_text ("\n" ∷ preview ∷ []))
      ∷ (if remaining == 0
          then ""
          else concat_text
              ("\n  (+" ∷ itoa (pos remaining) ∷ " more lines; Ctrl+G open transcript)" ∷ []))
      ∷ [])
