-- ===== src/Nodes/Acting.antt =====
-- The agent turns on the light or sends an alert, and never opens the door, whatever the model says.
use mathlib.Core.Path.{subst}
use galculus.Common.{
  ℕ, ◌≡◌, ◌≢◌, refl, ap, true, false, not, ◌||◌, ◌==ᵇ◌, ==ᵇ→eq, Bool-cases, inl, inr, Option, none,
  some, List, [], ◌∷◌, ◌++◌, All, All-append, codes, if◌then◌else◌, if_elim,
}
use galculus.Common.Dict.{lookup, insert, lookup-insert, lookup-Fresh}
use galculus.Common.Exceptions.{Thrown, ok, throw}
use galculus.Core.Wire.{Bytes}
use galculus.Llm.{LlmRuntime, LlmResult, blank_result, is_ok}
use galculus.Llm.Scheduled.{fallback_result}
use galculus.Memory.Manager.{Storage}
use galculus.Tools.{
  ToolCall, ToolResult, register_tool, execute, execute_entry, is_allowed, is_none, contains,
  include, allow_tool, block_tool, parse,
}
use galculus.Tools.Parsing.{parse-written}
use galculus.Nodes.{
  Act, turned_on_light, sent_alert, unlocked_door, turn_on_light, send_alert, unlock_door, registry,
  safety, called, act_on, decided, agent_main,
}

-- The acts that the policy lets through, by the name of the tool.
abbrev pub acted : {Double : Type 0} → ToolCall Double → List Act → List Act
acted call acts =
    if codes "turn_on_light" ==ᵇ call.name
    then acts ++ turned_on_light call.reason ∷ []
    else if codes "send_alert" ==ᵇ call.name
    then acts ++ sent_alert call.reason ∷ []
    else acts

module _ {Double : Type 0} where
  abbrev Right : Bytes → ToolCall Double → List Act → Type 0
  Right name call acts =
      (execute registry (record call { name = name }) safety acts).0
      ≡ acted (record call { name = name }) acts

  named_light : (call : ToolCall Double) (acts : List Act) → Right (codes "turn_on_light") call acts
  unfolding execute execute_entry registry safety register_tool lookup insert is_allowed is_none
      contains include allow_tool block_tool turn_on_light send_alert unlock_door ◌==ᵇ◌
  named_light call acts = refl

  named_alert : (call : ToolCall Double) (acts : List Act) → Right (codes "send_alert") call acts
  unfolding execute execute_entry registry safety register_tool lookup insert is_allowed is_none
      contains include allow_tool block_tool turn_on_light send_alert unlock_door ◌==ᵇ◌
  named_alert call acts = refl

  named_door : (call : ToolCall Double) (acts : List Act) → Right (codes "unlock_door") call acts
  unfolding execute execute_entry registry safety register_tool lookup insert is_allowed is_none
      contains include allow_tool block_tool turn_on_light send_alert unlock_door ◌==ᵇ◌
  named_door call acts = refl

  sent :
      (reason : Bytes) (confidence : Double) (acts : List Act)
      → execute registry
          (record { name = codes "send_alert"; reason = reason; confidence = confidence })
          safety
          acts
        ≡ (acts ++ sent_alert reason ∷ [], record { success = true; message = codes "alert sent" })
  unfolding execute execute_entry registry safety register_tool lookup insert is_allowed is_none
      contains include allow_tool block_tool turn_on_light send_alert unlock_door ◌==ᵇ◌
  sent reason confidence acts = refl

  registered :
      (name : Bytes)
      → (codes "turn_on_light" ==ᵇ name) ≡ false
      → (codes "send_alert" ==ᵇ name) ≡ false
      → (codes "unlock_door" ==ᵇ name) ≡ false
      → lookup name (registry {Double = Double}) ≡ none
  unfolding registry register_tool
  registered name l a d =
      rw
        (
          lookup-insert (codes "unlock_door") name,
          d,
          lookup-insert (codes "send_alert") name,
          a,
          lookup-insert (codes "turn_on_light") name,
          l,
        )
        (lookup-Fresh name [] tt)

  execute_lem :
      (call : ToolCall Double) (acts : List Act)
      → (execute registry call safety acts).0 ≡ acted call acts
  unfolding execute execute_entry
  execute_lem call acts = elim (Bool-cases (codes "turn_on_light" ==ᵇ call.name)) [
    | inl e ↦
        subst (λ (n : Bytes). Right n call acts) (==ᵇ→eq _ call.name e) (named_light call acts)
    | inr l ↦ elim (Bool-cases (codes "send_alert" ==ᵇ call.name)) [
      | inl e ↦
          subst (λ (n : Bytes). Right n call acts) (==ᵇ→eq _ call.name e) (named_alert call acts)
      | inr a ↦ elim (Bool-cases (codes "unlock_door" ==ᵇ call.name)) [
        | inl e ↦
            subst (λ (n : Bytes). Right n call acts) (==ᵇ→eq _ call.name e) (named_door call acts)
        | inr d ↦ rw (l, a, execute, registered call.name l a d) refl
      ]
    ]
  ]

-- No act opens the door.
abbrev pub Locked : List Act → Type 0
Locked = All (λ act. act ≢ unlocked_door)

acted-Locked :
    {Double : Type 0} (call : ToolCall Double) (acts : List Act)
    → Locked acts
    → Locked (acted call acts)
acted-Locked call acts h =
    if_elim Locked (codes "turn_on_light" ==ᵇ call.name)
      (λ e. All-append _ acts _ h ((λ same. cc), tt))
      (λ e.
        if_elim Locked (codes "send_alert" ==ᵇ call.name)
          (λ e'. All-append _ acts _ h ((λ same. cc), tt)) (λ e'. h))

module _ {Double : Type 0} (stod : Bytes → Thrown Double) (start : Double) where
  called-Locked :
      (acts : List Act) (parsed : Thrown (Option (ToolCall Double)))
      → Locked acts
      → Locked (called stod start acts parsed).0
  unfolding called
  called-Locked acts (throw why) h = h
  called-Locked acts (ok none) h = h
  called-Locked acts (ok (some call)) h = rw (execute_lem call acts) (acted-Locked call acts h)

  act_on-Locked :
      (result : LlmResult) (acts : List Act)
      → Locked acts
      → Locked (act_on stod start result acts).0
  unfolding act_on
  act_on-Locked result acts h =
      if_elim (λ (p : List Act × Thrown ℕ). Locked p.0)
        (not (is_ok result) || not (result.error_message ==ᵇ [])) (λ e. h)
        (λ e. called-Locked acts (parse stod start result.text) h)

  decided-Locked : (result : Thrown LlmResult) → Locked (decided stod start result).0
  unfolding decided
  decided-Locked (ok result) = act_on-Locked result [] tt
  decided-Locked (throw why) = tt

  -- The agent of the demo never opens the door, whatever its model answers or throws and however
  -- numbers are read.
  pub agent_main-Locked :
      (remote : LlmRuntime) (s : remote.State) (storage : Storage)
      → Locked (agent_main stod start remote s storage).1.0
  unfolding agent_main
  agent_main-Locked remote s storage = decided-Locked _

  -- If 0.50 is read as a number, the agent sends one alert, with the fallback's reason, when the
  -- scheduler falls back, and ends with 0.
  act_on-fallback_result :
      (acts : List Act) (half : Double)
      → stod (codes "0.50") ≡ ok half
      → act_on stod start fallback_result acts ≡ (
        acts
            ++ sent_alert (codes "LLM request used fallback because token budget was unavailable")
              ∷ [],
        ok 0,
      )
  unfolding act_on called fallback_result blank_result is_ok ◌==ᵇ◌
  act_on-fallback_result acts half e =
      let reason = codes "LLM request used fallback because token budget was unavailable" in
      rw
        (parse-written stod start half (codes "send_alert") reason (codes "0.50") (λ same. cc) refl
          refl refl e)
        (ap (λ (p : List Act × ToolResult). (p.0, ok (if p.1.success then 0 else 1)))
          (sent reason half acts))
