-- ===== src/PromptLang/Registry.antt =====
-- internal/promptlang/registry.go: the commands that the user has defined.
use coderoom.Prelude.Dict
use coderoom.Prelude.Dict.{Dict}
use coderoom.Prelude.Results.{Result, ok, err}
use coderoom.Prelude.{
  String, ◌≡◌, true, false, not, Option, none, some, List, [], ◌∷◌, string_eq, arith, if◌then◌else◌,
  ◌==◌, Bool-cases, is_some, inl, inr, Option-cases,
}
use coderoom.PromptLang.{Shell, CommandDefinition, CommandInvocation}
use coderoom.PromptLang.Scan.{is_identifier, is_reserved_command}

pub record Registry : Type 0 where
  pub definitions : Dict String CommandDefinition

pub data RegistryError : Type 0 where
  invalid_command_name reserved_command_name command_already_defined undefined_command :
      String → RegistryError

unfoldable pub new_registry : Registry
new_registry = record { definitions = [] }

unfoldable pub define_command : CommandDefinition → Registry → Registry × Option RegistryError
define_command d r =
    if not (is_identifier d.name)
    then (r, some (invalid_command_name d.name))
    else if is_reserved_command d.name
    then (r, some (reserved_command_name d.name))
    else if is_some (Dict.get d.name r.definitions)
    then (r, some (command_already_defined d.name))
    else (record r { definitions = Dict.put d.name d r.definitions }, none)

unfoldable pub resolve : CommandInvocation → Registry → Result RegistryError Shell
resolve i r = elim (Dict.get i.name r.definitions) [
  | none ↦ err (undefined_command i.name)
  | some d ↦ ok d.body
]

-- Any number of definitions, refused ones included.
unfoldable pub define_all : List CommandDefinition → Registry → Registry
define_all [] r = r
define_all (d ∷ ds) r = define_all ds (define_command d r).0

define_command_keeps :
    (d : CommandDefinition) (i : CommandInvocation) (r : Registry) (b : Shell)
    → resolve i r ≡ ok b
    → resolve i (define_command d r).0 ≡ ok b
unfolding define_command resolve
define_command_keeps d i r b h = elim (Option-cases (Dict.get i.name r.definitions)) [
  | inl e ↦ ground arith
  | inr (c, e) ↦
      ground (arith, string_eq.eqb_iff d.name i.name, Dict.get-put d.name i.name d r.definitions)
]

define_all_keeps :
    (ds : List CommandDefinition) (i : CommandInvocation) (r : Registry) (b : Shell)
    → resolve i r ≡ ok b
    → resolve i (define_all ds r) ≡ ok b
unfolding define_all
define_all_keeps [] i r b h = h
define_all_keeps (d ∷ ds) i r b h =
    define_all_keeps ds i (define_command d r).0 b (define_command_keeps d i r b h)

-- A definition that is accepted is what its name resolves to from then on, whatever is defined
-- later.
pub resolve-define_command :
    (d : CommandDefinition) (later : List CommandDefinition) (r : Registry)
    → (define_command d r).1 ≡ none
    → resolve (record { name = d.name }) (define_all later (define_command d r).0) ≡ ok d.body
resolve-define_command d later r h =
    define_all_keeps later (record { name = d.name }) (define_command d r).0 d.body
      (unfold define_command resolve in
        ground (arith, string_eq.eqb_iff d.name d.name, Dict.get-put d.name d.name d r.definitions))

-- Every name that is defined can be called: it is an identifier, and no built-in command.
record Callable (r : Registry) : Type 0 where
  callable :
      (name : String)
      → is_some (Dict.get name r.definitions) ≡ true
      → (is_identifier name ≡ true) × (is_reserved_command name ≡ false)

define_command-Callable :
    (d : CommandDefinition) (r : Registry) → Callable r → Callable (define_command d r).0
unfolding define_command
define_command-Callable d r v = record {
  callable = λ name h.
      let known = v.callable name in
      elim (Bool-cases (d.name == name)) [
        | inl e ↦
            let same = (string_eq.eqb_iff d.name name).0 e in
            ground (arith, known, same, Dict.get-put d.name name d r.definitions)
        | inr e ↦ ground (arith, known, Dict.get-put d.name name d r.definitions)
      ];
}

define_all-Callable :
    (ds : List CommandDefinition) (r : Registry) → Callable r → Callable (define_all ds r)
unfolding define_all
define_all-Callable [] r v = v
define_all-Callable (d ∷ ds) r v =
    define_all-Callable ds (define_command d r).0 (define_command-Callable d r v)

-- From a new registry, whatever was defined, what resolves is an identifier and not the name of a
-- built-in command, so no definition can take the place of one.
pub resolve-define_all :
    (ds : List CommandDefinition) (i : CommandInvocation) (b : Shell)
    → resolve i (define_all ds new_registry) ≡ ok b
    → (is_identifier i.name ≡ true) × (is_reserved_command i.name ≡ false)
unfolding resolve
resolve-define_all ds i b h =
    let v =
      define_all-Callable ds new_registry
        (unfold new_registry Dict.get in record { callable = λ name e. ground arith }) in
    v.callable i.name (ground arith)
