-- ===== src/Room/Records.antt =====
-- internal/room/record.go, filechange.go and the types of state.go.
use coderoom.Prelude.Dict.{Dict}
use coderoom.Prelude.Results.{Result, ok, err}
use coderoom.Prelude.Text.{concat_text, ends_in_newline}
use coderoom.Prelude.{
  ℕ, zero, suc, String, ◌≡◌, refl, Bool, false, not, Option, none, some, List, [], ◌∷◌, ◌==◌,
  string_eq, if◌then◌else◌, get_elem?, ◌≢◌, ap, length,
}
use coderoom.Agent.{
  Message, FileChange, AccumulateError, accumulate, output_content, reasoning_content,
  command_content, file_change_content,
}

pub data Kind : Type 0 where
  user_input agent_output system log reasoning command file_change : Kind

pub record Record : Type 0 where
  pub kind : Kind
  pub alias : String
  pub routing : List String
  pub text : String
  pub msg : Option Message
  pub handoff_source : Bool

-- One change, without the blank line between two.
format_change : FileChange → String
format_change ch = concat_text (
    "=== "
    ∷ ch.path
    ∷ (if not (ch.change_kind == "") then concat_text (" (" ∷ ch.change_kind ∷ ")" ∷ []) else "")
    ∷ "\n"
    ∷ ch.diff
    ∷ (if not (ends_in_newline ch.diff) then "\n" else "")
    ∷ [])

unfoldable pub format_file_change_body : List FileChange → String
unfolding format_change
format_file_change_body [] = ""
format_file_change_body (c ∷ []) = format_change c
format_file_change_body (c ∷ d ∷ cs) =
    concat_text (format_change c ∷ "\n" ∷ format_file_change_body (d ∷ cs) ∷ [])

unfoldable pub body_from_agent_message : Message → String
body_from_agent_message m = elim m.content [
  | output_content text ↦ text
  | reasoning_content text ↦ text
  | command_content c ↦ c.output
  | file_change_content c ↦ format_file_change_body c.changes
  | _ ↦ ""
]

unfoldable pub kind_for_agent_message : Message → Kind
kind_for_agent_message m = elim m.content [
  | reasoning_content text ↦ reasoning
  | command_content c ↦ command
  | file_change_content c ↦ file_change
  | _ ↦ agent_output
]

unfoldable pub new_agent_record : String → Message → Record
new_agent_record alias msg = record {
  kind = kind_for_agent_message msg;
  alias = alias;
  routing = [];
  text = body_from_agent_message msg;
  msg = some msg;
  handoff_source = false;
}

pub data RecordError : Type 0 where
  record_without_message : RecordError
  not_accumulated : AccumulateError → RecordError

unfoldable pub accumulate_record : Record → Message → Result RecordError Record
accumulate_record r next = elim r.msg [
  | none ↦ err record_without_message
  | some m ↦ elim (accumulate m next) [
    | err e ↦ err (not_accumulated e)
    | ok m' ↦ ok (record r { msg = some m'; text = body_from_agent_message m' })
  ]
]

abbrev pub system_record : String → Record
system_record text = record {
  kind = system;
  alias = "";
  routing = [];
  text = text;
  msg = none;
  handoff_source = false;
}

abbrev pub log_record : String → String → Record
log_record alias text = record {
  kind = log;
  alias = alias;
  routing = [];
  text = text;
  msg = none;
  handoff_source = false;
}

abbrev pub user_input_record : String → List String → Record
user_input_record text routing = record {
  kind = user_input;
  alias = "";
  routing = routing;
  text = text;
  msg = none;
  handoff_source = false;
}

pub data OpenStreamKind : Type 0 where
  open_output open_reasoning open_command open_file_change : OpenStreamKind

pub record OpenStream : Type 0 where
  pub alias : String
  pub record_idx : ℕ
  pub stream_id : String
  pub kind : OpenStreamKind

-- `uint64` versions do not wrap.
pub record Room : Type 0 where
  pub id : String
  pub version : ℕ
  pub members : List String
  pub departed : Dict String Bool
  pub records : List Record
  pub streaming : Dict String OpenStream
  pub latest_handoff : Dict String ℕ
  pub dirty : Dict ℕ (List ℕ)

unfoldable pub new_room : Room
new_room = record {
  id = "shared";
  version = 0;
  members = [];
  departed = [];
  records = [];
  streaming = [];
  latest_handoff = [];
  dirty = [];
}

-- `r.records[index].HandoffSource = b`
unfoldable pub mark : Bool → ℕ → List Record → List Record
mark b i [] = []
mark b zero (r ∷ rs) = record r { handoff_source = b } ∷ rs
mark b (suc i) (r ∷ rs) = r ∷ mark b i rs

pub get_elem?-mark_ne :
    (b : Bool) (i j : ℕ) (rs : List Record) → i ≢ j → get_elem? (mark b i rs) j ≡ get_elem? rs j
unfolding mark
get_elem?-mark_ne b i j [] h = refl
get_elem?-mark_ne b zero zero (r ∷ rs) h = absurd (h refl)
get_elem?-mark_ne b zero (suc j) (r ∷ rs) h = refl
get_elem?-mark_ne b (suc i) zero (r ∷ rs) h = refl
get_elem?-mark_ne b (suc i) (suc j) (r ∷ rs) h = get_elem?-mark_ne b i j rs (λ e. h (ap suc e))

pub length-mark : (b : Bool) (i : ℕ) (rs : List Record) → length (mark b i rs) ≡ length rs
unfolding mark
length-mark b i [] = refl
length-mark b zero (r ∷ rs) = refl
length-mark b (suc i) (r ∷ rs) = ap suc (length-mark b i rs)
