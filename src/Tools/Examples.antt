-- ===== src/Tools/Examples.antt =====
-- An agent that may send one message a minute.
use orvexa.Base.{◌∷◌, ℕ, [], String, List, ◌≤◌, ◌≡◌, arith, refl, length, byte_length, is_blank}
use orvexa.Tools.{
  platform_limit, invoke_all, Call, invoke, decide, check_policy, check_rate, check_args, run_tool,
}
use orvexa.Tools.Limit.{new_gateway, invoke_all-limit}
use orvexa.Errors.{Result, ok}
use orvexa.Tools.Rate.{run_count}
use orvexa.Tools.Arguments.{text_arg, validate_args, require_string, require_body, text_of}
use orvexa.Tools.Gates.{Effect, invoke-Effect}
use orvexa.Tools.Windows.{admit, window_of, set_window, trimmed}

abbrev allow_messages : ℕ → ℕ → Result (List (String × ℕ))
allow_messages tenant agent = ok (("send_whatsapp", 3) ∷ [])

abbrev send : Call → Result String
send c = ok "queued"

abbrev message : Call
message = record {
  tool = "send_whatsapp";
  tenant_id = 1;
  agent_id = 9;
  args = ("to", text_arg "+254700000001") ∷ ("body", text_arg "hello") ∷ [];
}

invoke-Effect_example :
    let r = invoke allow_messages send 5 message new_gateway in
    Effect allow_messages 5 message new_gateway r
    × (r.gateway.audits ≡ record { call = message; outcome = r.outcome; failure = r.failure } ∷ [])
unfolding new_gateway
invoke-Effect_example = invoke-Effect allow_messages send 5 message new_gateway

invoke_all-limit_example :
    run_count 50
      (9, "send_whatsapp")
      (invoke_all allow_messages send ((5, message) ∷ (30, message) ∷ []) new_gateway).executions
    ≤ 1
unfolding platform_limit
invoke_all-limit_example =
    invoke_all-limit allow_messages send 0 ((5, message) ∷ (30, message) ∷ []) (9, "send_whatsapp")
      1 50 (omega arith, (omega arith, tt)) (omega arith) refl (omega arith)

-- The first call runs and the second, within the minute, does not.
second_is_limited :
    length
      (invoke_all allow_messages send ((5, message) ∷ (30, message) ∷ []) new_gateway).executions
    ≡ 1
unfolding invoke_all invoke decide check_policy check_rate check_args run_tool platform_limit admit
    window_of set_window trimmed validate_args require_string require_body is_blank byte_length
    text_of new_gateway
second_is_limited = refl
