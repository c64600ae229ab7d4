-- ===== src/Tools/Gates.antt =====
-- What Invoke of internal/tools/gateway.go decides.
use orvexa.Base.{
  ◌∷◌, ℕ, List, String, ◌==◌, ◌≡◌, ap, Bool-cases, false, inl, Option, inr, ◌≢◌, some, none, true,
  ◌↔◌, refl,
}
use orvexa.Tools.{
  Call, invoke, Gateway, capped, check_rate, Reply, decide, check_policy, policy_limit, run_tool,
  check_args, audited, platform_limit,
}
use orvexa.Errors.{Result, ok, err, Error}
use orvexa.Tools.Windows.{Key, Admission, Window, admit, full, room}
use orvexa.Tools.Arguments.{validate_args}

abbrev pub key_of : Call → Key
key_of c = (c.agent_id, c.tool)

abbrev pub limit_of : Call → List (String × ℕ) → ℕ
limit_of c allow = capped (policy_limit c.tool allow) (platform_limit c.tool)

-- The policy of the agent lists the tool with a limit.
pub record Allows (policies : ℕ → ℕ → Result (List (String × ℕ))) (c : Call) : Type 0 where
  pub tenant : (c.tenant_id == 0) ≡ false
  pub agent : (c.agent_id == 0) ≡ false
  pub allow : List (String × ℕ)
  pub listed : policies c.tenant_id c.agent_id ≡ ok allow
  pub positive : (policy_limit c.tool allow == 0) ≡ false

-- What a call does to the windows and the log of executions.
pub data Effect (policies : ℕ → ℕ → Result (List (String × ℕ))) (time : ℕ) (c : Call) (g : Gateway)
    (r : Reply) : Type 0 where
  -- refused before the rate was asked
  idle :
      r.gateway.windows ≡ g.windows
      → r.gateway.executions ≡ g.executions
      → r.outcome.executed ≡ false
      → Effect policies time c g r
  -- the window was full
  limited :
      (a : Allows policies c)
      → admit time (key_of c) (limit_of c a.allow) g.windows ≡ full r.gateway.windows
      → r.gateway.executions ≡ g.executions
      → r.outcome.executed ≡ false
      → Effect policies time c g r
  -- the arguments were refused
  malformed :
      (a : Allows policies c)
      → admit time (key_of c) (limit_of c a.allow) g.windows ≡ room r.gateway.windows
      → validate_args c.tool c.args ≢ none
      → r.gateway.executions ≡ g.executions
      → r.outcome.executed ≡ false
      → Effect policies time c g r
  -- the executor ran
  ran :
      (a : Allows policies c)
      → admit time (key_of c) (limit_of c a.allow) g.windows ≡ room r.gateway.windows
      → validate_args c.tool c.args ≡ none
      → r.gateway.executions ≡ record { key = key_of c; at = time } ∷ g.executions
      → (r.outcome.executed ≡ true) ↔ (r.failure ≡ none)
      → Effect policies time c g r

module _ (policies : ℕ → ℕ → Result (List (String × ℕ))) (execute : Call → Result String) (time : ℕ)
    (c : Call) (g : Gateway) where
  abbrev Does : Reply → Type 0
  Does r = Effect policies time c g r × (r.gateway.audits ≡ g.audits)

  run_tool-Effect :
      (ws : List Window) (x : Result String) (a : Allows policies c)
      → admit time (key_of c) (limit_of c a.allow) g.windows ≡ room ws
      → validate_args c.tool c.args ≡ none
      → execute c ≡ x
      → Does (run_tool policies execute time c (record g { windows = ws }))
  unfolding run_tool
  run_tool-Effect ws (ok s) a w v e = rw e (ran a w v refl ((λ p. refl), λ p. refl), refl)
  run_tool-Effect ws (err x) a w v e = rw e (ran a w v refl ((λ p. cc), λ p. cc), refl)

  check_args-Effect :
      (ws : List Window) (v : Option Error) (a : Allows policies c)
      → admit time (key_of c) (limit_of c a.allow) g.windows ≡ room ws
      → validate_args c.tool c.args ≡ v
      → Does (check_args policies execute time c (record g { windows = ws }) v)
  unfolding check_args
  check_args-Effect ws (some e) a w v = (malformed a w (λ n. cc (n, v)) refl refl, refl)
  check_args-Effect ws none a w v = run_tool-Effect ws (execute c) a w v refl

  check_rate-Effect :
      (d : Admission) (a : Allows policies c)
      → admit time (key_of c) (limit_of c a.allow) g.windows ≡ d
      → Does (check_rate policies execute time c g d)
  unfolding check_rate
  check_rate-Effect (full ws) a w = (limited a w refl refl, refl)
  check_rate-Effect (room ws) a w = check_args-Effect ws _ a w refl

  check_policy-Effect :
      (p : Result (List (String × ℕ)))
      → (c.tenant_id == 0) ≡ false
      → (c.agent_id == 0) ≡ false
      → policies c.tenant_id c.agent_id ≡ p
      → Does (check_policy policies execute time c g p)
  unfolding check_policy
  check_policy-Effect (err e) t a h = (idle refl refl refl, refl)
  check_policy-Effect (ok allow) t a h = elim (Bool-cases (policy_limit c.tool allow == 0)) [
    | inl zero_limit ↦ rw zero_limit (idle refl refl refl, refl)
    | inr positive ↦ rw positive (
        check_rate-Effect _
          (record { tenant = t; agent = a; allow = allow; listed = h; positive = positive }) refl)
  ]

  decide-Effect : Does (decide policies execute time c g)
  unfolding decide
  decide-Effect = elim (Bool-cases (c.tenant_id == 0)) [
    | inl none_given ↦ rw none_given (idle refl refl refl, refl)
    | inr t ↦ elim (Bool-cases (c.agent_id == 0)) [
      | inl none_given ↦ rw (t, none_given) (idle refl refl refl, refl)
      | inr a ↦ rw (t, a) (check_policy-Effect _ t a refl)
    ]
  ]

Effect-audited :
    (policies : ℕ → ℕ → Result (List (String × ℕ))) (time : ℕ) (c : Call) (g : Gateway) (r : Reply)
    → Effect policies time c g r
    → Effect policies time c g (audited c r)
Effect-audited policies time c g r (idle w e o) = idle w e o
Effect-audited policies time c g r (limited a w e o) = limited a w e o
Effect-audited policies time c g r (malformed a w v e o) = malformed a w v e o
Effect-audited policies time c g r (ran a w v e o) = ran a w v e o

-- Invoke audits every call exactly once, with the outcome and the error that it returns. The
-- executor runs only for a tenant and an agent whose policy lists the tool with a positive limit,
-- when the window of the agent and the tool has room and the arguments fit the tool; an outcome
-- says executed exactly then and when the executor returned no error.
pub invoke-Effect :
    (policies : ℕ → ℕ → Result (List (String × ℕ))) (execute : Call → Result String) (time : ℕ)
    (c : Call) (g : Gateway)
    → let r = invoke policies execute time c g in
      Effect policies time c g r
      × (r.gateway.audits
          ≡ record { call = c; outcome = r.outcome; failure = r.failure } ∷ g.audits)
unfolding invoke
invoke-Effect policies execute time c g =
    let r = decide policies execute time c g in
    let d = decide-Effect policies execute time c g in
    (
      Effect-audited policies time c g _ d.0,
      ap (λ l. record { call = c; outcome = r.outcome; failure = r.failure } ∷ l) d.1,
    )
