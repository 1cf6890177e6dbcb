-- ===== src/Tests/Tools.antt =====
-- Policies, tools and texts for tools/ and the agent of the demo. A number is the count of its
-- bytes, and an empty one throws.
use galculus.Common.{
  ℕ, suc, ◌≡◌, refl, true, false, some, List, [], ◌∷◌, ◌++◌, length, codes, if◌then◌else◌, not,
  ◌&&◌, ◌||◌, ◌==ᵇ◌,
}
use galculus.Common.Exceptions.{Thrown, ok, throw}
use galculus.Core.Wire.{Bytes}
use galculus.Tools.{ToolCall, ToolHandler, register_tool, execute, no_policy, parse}
use galculus.Tools.Policy.{
  PolicyCall, allow, block, after_calls, allowed_in, blocked_in, never_allows,
  execute-register_tool,
}
use galculus.Tools.Parsing.{described_text, parse_lem, written, parse-written}
use galculus.Nodes.{agent_main}
use galculus.Nodes.Acting.{Locked, agent_main-Locked}
use galculus.Memory.Manager.{Storage}
use galculus.Tests.Scheduling.{model}

abbrev pub stod : Bytes → Thrown ℕ
stod [] = throw "stod"
stod (c ∷ text) = ok (suc (length text))

abbrev count_call : ToolHandler ℕ ℕ
count_call call n = (suc n, record { success = true; message = call.reason })

abbrev changes : List PolicyCall
changes = allow (codes "b") ∷ block (codes "a") ∷ allow (codes "a") ∷ []

abbrev call : ToolCall ℕ
call = record { name = codes "a"; reason = codes "why"; confidence = 3 }

execute-register_tool_example :
    execute (register_tool [] (codes "a") count_call) call (after_calls changes no_policy) 4 ≡ (
      if codes "a" ==ᵇ codes "a"
      then (if not (blocked_in changes (codes "a"))
            && (never_allows changes || allowed_in changes (codes "a"))
          then (5, record { success = true; message = codes "why" })
          else (
            4,
            record {
              success = false;
              message = codes "Tool blocked by safety policy: " ++ codes "a";
            },
          ))
      else execute [] call (after_calls changes no_policy) 4)
execute-register_tool_example = execute-register_tool [] (codes "a") count_call changes call 4

abbrev answer : Bytes
answer = codes "so:\ntool=x\nreason=r=1\ntool=y\nconfidence=\n"

parse_lem_example : parse stod 0 answer ≡ described_text stod 0 answer
parse_lem_example = parse_lem stod 0 answer

parse-written_example :
    parse stod 0 (written (codes "send_alert") (codes "r=1") (codes "0.5"))
    ≡ ok (some (record { name = codes "send_alert"; reason = codes "r=1"; confidence = 3 }))
parse-written_example =
    parse-written stod 0 3 (codes "send_alert") (codes "r=1") (codes "0.5") (λ e. cc) refl refl refl
      refl

abbrev pub storage : Storage
storage = record { global_storage = 65536; scratch_storage = 262144; message_storage = 524288 }

agent_main-Locked_example : Locked (agent_main stod 0 model 0 storage).1.0
agent_main-Locked_example = agent_main-Locked stod 0 model 0 storage
