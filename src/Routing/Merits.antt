-- ===== src/Routing/Merits.antt =====
-- What Score of internal/routing/service.go rewards, whatever its floats are rounded to.
use orvexa.Base.{ℕ, ◌≡◌, ◌≤◌, true, false, Bool, length, arith, Bool-cases, inl, inr, ltb, refl}
use orvexa.Routing.{score, score_of, coverage, speaks, matched, Request, AgentView, b2f}
use orvexa.Floats.Order.{
  float_of_mono, add_float_mono, multiply_float_mono, divide_float_mono, float_of_positive,
}

coverage_mono :
    (req : Request) (a b : AgentView)
    → length (matched req.required_skills a.skills) ≤ length (matched req.required_skills b.skills)
    → coverage req a ≤ coverage req b
unfolding coverage
coverage_mono req a b more = elim (Bool-cases (ltb 0 (length req.required_skills))) [
  | inl some_required ↦ rw some_required (
      divide_float_mono _ _ _ (float_of_positive _ (ground (arith, some_required)))
        (float_of_mono _ _ more))
  | inr none_required ↦ rw none_required (omega arith)
]

b2f_mono : (x y : Bool) → (x ≡ true → y ≡ true) → b2f x ≤ b2f y
unfolding b2f
b2f_mono true true h = omega arith
b2f_mono true false h = absurd (cc (h refl))
b2f_mono false true h = float_of_mono 0 1 (omega arith)
b2f_mono false false h = omega arith

-- An agent that has at least as many of the required skills as another, and whose language fits the
-- request where the other's does, scores at least as high, and so it does at a higher priority.
pub score_mono :
    (req : Request) (priority : ℕ) (a b : AgentView) (x y : Bool)
    → length (matched req.required_skills a.skills) ≤ length (matched req.required_skills b.skills)
    → (speaks req a ≡ true → speaks req b ≡ true)
    → req.priority ≤ priority
    → (score req a x).score ≤ (score (record req { priority = priority }) b y).score
unfolding score score_of
score_mono req priority a b x y more fits urgent =
    add_float_mono _ _ _ _
      (add_float_mono _ _ _ _ (multiply_float_mono _ _ _ (coverage_mono req a b more))
        (multiply_float_mono _ _ _ (b2f_mono _ _ fits)))
      (divide_float_mono _ _ _ (float_of_positive 10 (omega arith)) (float_of_mono _ _ urgent))
