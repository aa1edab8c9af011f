-- ===== src/Agent/Approvals.antt =====
-- internal/agent/approvals.go: what an agent asks the user, normalised. Kinds and options are texts.
use coderoom.Prelude.{String, List}

pub record ApprovalRequest : Type 0 where
  pub kind : String
  pub ask : String
  pub options : List String

abbrev pub option_accept : String
option_accept = "accept"

abbrev pub option_accept_for_session : String
option_accept_for_session = "acceptForSession"

abbrev pub option_decline : String
option_decline = "decline"

abbrev pub option_cancel : String
option_cancel = "cancel"
