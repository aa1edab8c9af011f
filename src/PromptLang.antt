-- ===== src/PromptLang.antt =====
-- internal/promptlang/action.go: the statements of the user-input language.
pub mod Scan
pub mod Registry
pub mod Parse
pub mod Trim
pub mod Soundness
mod Tests
use coderoom.Prelude.{ℕ, String}

pub record Shell : Type 0 where
  pub program : String

pub record CommandDefinition : Type 0 where
  pub name : String
  pub body : Shell

pub record CommandInvocation : Type 0 where
  pub name : String

pub record Loop : Type 0 where
  pub participant : String
  pub prompt : String
  pub condition : String
  -- an `int`, which the parser takes from positive decimals only
  pub max_turns : ℕ

pub data Statement : Type 0 where
  invite : String → Statement
  remove : String → Statement
  cancel : String → Statement
  handoff : String → String → Statement
  send : String → String → Statement
  broadcast : String → Statement
  policy_enable : String → Statement
  shell_statement : Shell → Statement
  define : CommandDefinition → Statement
  invoke : CommandInvocation → Statement
  loop : Loop → Statement
  who : Statement
  help : Statement
  quit : Statement
  debug_view : Statement
  debug_rows : Statement
