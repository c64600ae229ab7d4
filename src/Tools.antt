-- ===== src/Tools.antt =====
-- internal/tools/gateway.go: the gate chain between an agent and the platform's services. The
-- services (Executor) and the policies (PolicySource) are interfaces of the file, so they are
-- arguments. Times are in seconds and never run backwards; an `int` limit that is not positive is 0.
pub mod Arguments
pub mod Windows
pub mod Gates
pub mod Rate
pub mod Limit
mod Examples
use orvexa.Base.{
  ◌∷◌, Option, String, List, ℕ, Bool, some, if◌then◌else◌, str_eq, false, ltb, ◌==◌, ◌||◌, true,
}
use orvexa.Tools.Windows.{Key, Window, Admission, full, room, admit}
use orvexa.Tools.Arguments.{Arg, validate_args}
use orvexa.Errors.{Result, Error, err, ok, forbidden_error, rate_limited_error, invalid_error}
use mathlib.Core.Option.{none}
use mathlib.Core.List.{[]}

pub record Call : Type 0 where
  pub tool : String
  pub tenant_id : ℕ
  pub agent_id : ℕ
  pub args : List (String × Arg)

pub record Outcome : Type 0 where
  pub executed : Bool
  pub result : Option String
  pub reason : String

-- What the audit sink was given.
pub record Audit : Type 0 where
  pub call : Call
  pub outcome : Outcome
  pub failure : Option Error

-- A call that reached the executor.
pub record Execution : Type 0 where
  pub key : Key
  pub at : ℕ

pub record Gateway : Type 0 where
  pub windows : List Window
  pub executions : List Execution
  pub audits : List Audit

pub record Reply : Type 0 where
  pub outcome : Outcome
  pub failure : Option Error
  pub gateway : Gateway

-- maxPerCall
unfoldable pub platform_limit : String → Option ℕ
platform_limit tool =
    if str_eq tool "get_customer"
    then some 5
    else if str_eq tool "create_case"
    then some 2
    else if str_eq tool "send_whatsapp"
    then some 1
    else none

abbrev refused : String → Error → Gateway → Reply
refused reason e g = record {
  outcome = record { executed = false; result = none; reason = reason };
  failure = some e;
  gateway = g;
}

abbrev pub policy_limit : String → List (String × ℕ) → ℕ
policy_limit tool [] = 0
policy_limit tool ((t, n) ∷ rest) = if str_eq t tool then n else policy_limit tool rest

abbrev pub capped : ℕ → Option ℕ → ℕ
capped limit none = limit
capped limit (some p) = if ltb p limit then p else limit

abbrev pub audited : Call → Reply → Reply
audited c r = record r {
  gateway = record (r.gateway) {
    audits = record { call = c; outcome = r.outcome; failure = r.failure } ∷ r.gateway.audits;
  };
}

module _ (policies : ℕ → ℕ → Result (List (String × ℕ))) (execute : Call → Result String) where
  abbrev executed_reply : Result String → Gateway → Reply
  executed_reply (err e) g = refused "execution failed" e g
  executed_reply (ok r) g = record {
    outcome = record { executed = true; result = some r; reason = "" };
    failure = none;
    gateway = g;
  }

  -- The execution, which the log of executions records.
  unfoldable pub run_tool : ℕ → Call → Gateway → Reply
  run_tool time c g =
      executed_reply (execute c)
        (record g { executions = record { key = (c.agent_id, c.tool); at = time } ∷ g.executions })

  unfoldable pub check_args : ℕ → Call → Gateway → Option Error → Reply
  unfolding run_tool
  check_args time c g (some e) = refused "schema validation failed" e g
  check_args time c g none = run_tool time c g

  unfoldable pub check_rate : ℕ → Call → Gateway → Admission → Reply
  unfolding check_args
  check_rate time c g (full ws) =
      refused "rate limit" (rate_limited_error "tool.rate_limited") (record g { windows = ws })
  check_rate time c g (room ws) =
      check_args time c (record g { windows = ws }) (validate_args c.tool c.args)

  unfoldable pub check_policy : ℕ → Call → Gateway → Result (List (String × ℕ)) → Reply
  unfolding check_rate
  check_policy time c g (err e) = refused "" e g
  check_policy time c g (ok allow) =
      if policy_limit c.tool allow == 0
      then refused "tool not in agent allowlist" (forbidden_error "tool.not_allowed") g
      else check_rate time c g (
          admit time (c.agent_id, c.tool)
            (capped (policy_limit c.tool allow) (platform_limit c.tool)) g.windows)

  -- invoke
  unfoldable pub decide : ℕ → Call → Gateway → Reply
  unfolding check_policy
  decide time c g =
      if c.tenant_id == 0 || c.agent_id == 0
      then refused "" (invalid_error "tool.tenant_agent_required") g
      else check_policy time c g (policies c.tenant_id c.agent_id)

  -- Invoke
  unfoldable pub invoke : ℕ → Call → Gateway → Reply
  invoke time c g = audited c (decide time c g)

  -- Calls at the given times.
  unfoldable pub invoke_all : List (ℕ × Call) → Gateway → Gateway
  invoke_all [] g = g
  invoke_all ((time, c) ∷ calls) g = invoke_all calls (invoke time c g).gateway
