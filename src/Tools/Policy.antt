-- ===== src/Tools/Policy.antt =====
-- Which calls the registry runs, after any changes of the policy and of the tools.
use galculus.Common.{
  Bool, true, false, not, ◌&&◌, ◌||◌, ◌==ᵇ◌, ==ᵇ_iff, ◌≡◌, refl, arith, List, [], ◌∷◌, ◌++◌, codes,
  if◌then◌else◌,
}
use galculus.Common.Dict.{Dict, lookup-insert}
use galculus.Core.Wire.{Bytes}
use galculus.Tools.{
  ToolCall, contains, include, SafetyPolicy, no_policy, allow_tool, block_tool, is_none, is_allowed,
  ToolHandler, register_tool, execute, execute_entry,
}

-- A change of the policy.
pub data PolicyCall : Type 0 where
  allow : Bytes → PolicyCall
  block : Bytes → PolicyCall

abbrev pub apply_policy : PolicyCall → SafetyPolicy → SafetyPolicy
apply_policy (allow name) p = allow_tool p name
apply_policy (block name) p = block_tool p name

abbrev pub after_calls : List PolicyCall → SafetyPolicy → SafetyPolicy
after_calls [] p = p
after_calls (c ∷ rest) p = after_calls rest (apply_policy c p)

-- What the changes say, whatever their order.
abbrev pub allowed_in : List PolicyCall → Bytes → Bool
allowed_in [] name = false
allowed_in (allow x ∷ rest) name = (x ==ᵇ name) || allowed_in rest name
allowed_in (block x ∷ rest) name = allowed_in rest name

abbrev pub blocked_in : List PolicyCall → Bytes → Bool
blocked_in [] name = false
blocked_in (allow x ∷ rest) name = blocked_in rest name
blocked_in (block x ∷ rest) name = (x ==ᵇ name) || blocked_in rest name

abbrev pub never_allows : List PolicyCall → Bool
never_allows [] = true
never_allows (allow x ∷ rest) = false
never_allows (block x ∷ rest) = never_allows rest

contains-include :
    (xs : List Bytes) (x name : Bytes)
    → contains (include xs x) name ≡ ((x ==ᵇ name) || contains xs name)
unfolding contains include
contains-include xs x name = ground (arith, ==ᵇ_iff x name)

allowed-after :
    (cs : List PolicyCall) (p : SafetyPolicy) (name : Bytes)
    → contains (after_calls cs p).allowed_tools name
      ≡ (allowed_in cs name || contains p.allowed_tools name)
unfolding allow_tool block_tool
allowed-after [] p name = refl
allowed-after (allow x ∷ rest) p name =
    ground
      (arith, allowed-after rest (allow_tool p x) name, contains-include p.allowed_tools x name)
allowed-after (block x ∷ rest) p name = allowed-after rest (block_tool p x) name

blocked-after :
    (cs : List PolicyCall) (p : SafetyPolicy) (name : Bytes)
    → contains (after_calls cs p).blocked_tools name
      ≡ (blocked_in cs name || contains p.blocked_tools name)
unfolding allow_tool block_tool
blocked-after [] p name = refl
blocked-after (allow x ∷ rest) p name = blocked-after rest (allow_tool p x) name
blocked-after (block x ∷ rest) p name =
    ground
      (arith, blocked-after rest (block_tool p x) name, contains-include p.blocked_tools x name)

is_none-include : (xs : List Bytes) (x : Bytes) → is_none (include xs x) ≡ false
unfolding is_none include contains
is_none-include [] x = refl
is_none-include (y ∷ ys) x = ground arith

is_none-after :
    (cs : List PolicyCall) (p : SafetyPolicy)
    → is_none (after_calls cs p).allowed_tools ≡ (never_allows cs && is_none p.allowed_tools)
unfolding allow_tool block_tool
is_none-after [] p = refl
is_none-after (allow x ∷ rest) p =
    ground (arith, is_none-after rest (allow_tool p x), is_none-include p.allowed_tools x)
is_none-after (block x ∷ rest) p = is_none-after rest (block_tool p x)

-- After any changes to a new policy, a call is allowed exactly when its name was never blocked and
-- either no name was ever allowed or its name was.
is_allowed_after :
    {Double : Type 0} (cs : List PolicyCall) (call : ToolCall Double)
    → is_allowed (after_calls cs no_policy) call
      ≡ (not (blocked_in cs call.name) && (never_allows cs || allowed_in cs call.name))
unfolding is_allowed is_none contains
is_allowed_after cs call = ground (
  arith,
  blocked-after cs no_policy call.name,
  allowed-after cs no_policy call.name,
  is_none-after cs no_policy,
)

module _ {Double World : Type 0} where
  -- After any changes of the policy, the registry runs a tool that was just registered exactly
  -- when its name was never blocked, and was allowed or no name was; otherwise it changes nothing
  -- and says why; calls of other names go on as before.
  pub execute-register_tool :
      (tools : Dict (ToolHandler Double World)) (name : Bytes) (handler : ToolHandler Double World)
      (cs : List PolicyCall) (call : ToolCall Double) (w : World)
      → execute (register_tool tools name handler) call (after_calls cs no_policy) w ≡ (
          if name ==ᵇ call.name
          then (if not (blocked_in cs name) && (never_allows cs || allowed_in cs name)
              then handler call w
              else (
                w,
                record {
                  success = false;
                  message = codes "Tool blocked by safety policy: " ++ name;
                },
              ))
          else execute tools call (after_calls cs no_policy) w)
  unfolding execute execute_entry register_tool
  execute-register_tool tools name handler cs call w = ground (
    arith,
    ==ᵇ_iff name call.name,
    lookup-insert name call.name handler tools,
    is_allowed_after cs call,
  )
