-- ===== src/Tools.antt =====
-- tools/: the calls that a model's answer asks for, the policy that says which may run, and the
-- registry that runs them. `double` and `std::stod` are parameters; a handler acts on a world.
pub mod Policy
pub mod Parsing
use galculus.Common.{
  ℕ, Bool, true, false, not, ◌==◌, ◌==ᵇ◌, ◌&&◌, Option, none, some, List, [], ◌∷◌, ◌++◌, codes,
  if◌then◌else◌,
}
use galculus.Common.Dict.{Dict, lookup, insert}
use galculus.Common.Exceptions.{Thrown, ok, throw, caught}
use galculus.Core.Wire.{Bytes}

pub record ToolCall (Double : Type 0) : Type 0 where
  pub name : Bytes
  pub reason : Bytes
  pub confidence : Double

pub record ToolResult : Type 0 where
  pub success : Bool
  pub message : Bytes

-- `std::unordered_set` of strings: a list without repetitions.
unfoldable pub contains : List Bytes → Bytes → Bool
contains [] name = false
contains (x ∷ rest) name = if x ==ᵇ name then true else contains rest name

unfoldable pub include : List Bytes → Bytes → List Bytes
include names name = if contains names name then names else name ∷ names

pub record SafetyPolicy : Type 0 where
  pub allowed_tools : List Bytes
  pub blocked_tools : List Bytes

abbrev pub no_policy : SafetyPolicy
no_policy = record { allowed_tools = []; blocked_tools = [] }

unfoldable pub allow_tool : SafetyPolicy → Bytes → SafetyPolicy
allow_tool p name = record p { allowed_tools = include p.allowed_tools name }

unfoldable pub block_tool : SafetyPolicy → Bytes → SafetyPolicy
block_tool p name = record p { blocked_tools = include p.blocked_tools name }

unfoldable pub is_none : List Bytes → Bool
is_none [] = true
is_none (x ∷ rest) = false

unfoldable pub is_allowed : {Double : Type 0} → SafetyPolicy → ToolCall Double → Bool
unfolding is_none
is_allowed p call =
    if contains p.blocked_tools call.name
    then false
    else if is_none p.allowed_tools
    then true
    else contains p.allowed_tools call.name

abbrev pub ToolHandler : Type 0 → Type 0 → Type 0
ToolHandler Double World = ToolCall Double → World → World × ToolResult

module _ {Double World : Type 0} where
  unfoldable pub register_tool :
      Dict (ToolHandler Double World)
      → Bytes
      → ToolHandler Double World
      → Dict (ToolHandler Double World)
  register_tool tools name handler = insert name handler tools

  found : Option (ToolHandler Double World) → Bool
  found none = false
  found (some handler) = true

  unfoldable pub has_tool : Dict (ToolHandler Double World) → Bytes → Bool
  unfolding found
  has_tool tools name = found (lookup name tools)

  -- `has_tool` and `at` look the same entry up.
  unfoldable pub execute_entry :
      Option (ToolHandler Double World)
      → ToolCall Double
      → SafetyPolicy
      → World
      → World × ToolResult
  execute_entry none call safety w =
      (w, record { success = false; message = codes "Tool not registered: " ++ call.name })
  execute_entry (some handler) call safety w =
      if not (is_allowed safety call)
      then (
        w,
        record { success = false; message = codes "Tool blocked by safety policy: " ++ call.name },
      )
      else handler call w

  unfoldable pub execute :
      Dict (ToolHandler Double World) → ToolCall Double → SafetyPolicy → World → World × ToolResult
  unfolding execute_entry
  execute tools call safety w = execute_entry (lookup call.name tools) call safety w

-- The lines that `std::getline` takes, up to each newline; none is empty at the end of the text.
first_byte : ℕ → List Bytes → List Bytes
first_byte c [] = (c ∷ []) ∷ []
first_byte c (line ∷ rest) = (c ∷ line) ∷ rest

unfoldable pub lines : Bytes → List Bytes
unfolding first_byte
lines [] = []
lines (c ∷ text) = let rest = lines text in if c == 10 then [] ∷ rest else first_byte c rest

-- `line.rfind(prefix, 0) == 0`
unfoldable pub starts_with : Bytes → Bytes → Bool
starts_with [] line = true
starts_with (p ∷ prefix) [] = false
starts_with (p ∷ prefix) (c ∷ line) = p == c && starts_with prefix line

unfoldable pub value_after_equals : Bytes → Bytes
value_after_equals [] = []
value_after_equals (c ∷ line) = let rest = value_after_equals line in if c == 61 then line else rest

named : {Double : Type 0} → ToolCall Double → Option (ToolCall Double)
named call = if call.name ==ᵇ [] then none else some call

module _ {Double : Type 0} (stod : Bytes → Thrown Double) where
  unfoldable pub parse_line : ToolCall Double → Bytes → Thrown (ToolCall Double)
  parse_line call line =
      if starts_with (codes "tool=") line
      then ok (record call { name = value_after_equals line })
      else if starts_with (codes "reason=") line
      then ok (record call { reason = value_after_equals line })
      else if starts_with (codes "confidence=") line
      then caught (λ number. ok (record call { confidence = number }))
          (stod (value_after_equals line))
      else ok call

  unfoldable pub parse_lines : List Bytes → ToolCall Double → Thrown (ToolCall Double)
  parse_lines [] call = ok call
  parse_lines (line ∷ rest) call = caught (parse_lines rest) (parse_line call line)

  unfoldable pub parse : Double → Bytes → Thrown (Option (ToolCall Double))
  unfolding named
  parse zero text =
      caught (λ call. ok (named call))
        (parse_lines (lines text) (record { name = []; reason = []; confidence = zero }))
