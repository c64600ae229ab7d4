-- ===== src/Workflows/Progress.antt =====
-- How far Tick of internal/workflows/engine.go brings the instances.
use orvexa.Workflows.Tick.{mark_failed, advance_all, settle, tick, claim, is_among, touch}
use orvexa.Workflows.Types.{Instance, Store, Step}
use orvexa.Database.{World, attempt, exec, pure, outcome, Db, ◌>>=◌}
use orvexa.Base.{
  ◌∷◌, ℕ, List, ◌∙◌, Bool, map, String, inl, Option, ◌≡◌, ap, update_where, inr, refl, ◌+◌,
  Bool-cases,
}
use orvexa.Errors.{Result, ok, err, internal_error, Error}
use orvexa.Workflows.Advance.{Sends, advance-Post}
use orvexa.Database.Rules.{
  Post, pure-Post, now_then, bind-Post, Post-map, Post-world, attempt-Post, returns, fails,
}
use mathlib.Core.List.{[]}
use orvexa.Workflows.Engine.{advance}
use orvexa.Database.Outcomes.{outcome-Post, try-Post}

-- Where an instance stands.
abbrev pub progress : Instance → ℕ × Step × Option ℕ
progress i = (i.id, i.current_step, i.next_run_at)

-- Every instance stands where it stood, and no step and no event was written.
pub record Stalls (s t : Store) : Type 0 where
  pub stands : map progress t.instances ≡ map progress s.instances
  pub steps : t.steps ≡ s.steps
  pub outbox : t.outbox ≡ s.outbox

Stalls-refl : (s : Store) → Stalls s s
Stalls-refl s = record { stands = refl; steps = refl; outbox = refl }

Stalls-trans : {s t u : Store} → Stalls s t → Stalls t u → Stalls s u
Stalls-trans p q = record {
  stands = q.stands ∙ p.stands;
  steps = q.steps ∙ p.steps;
  outbox = q.outbox ∙ p.outbox;
}

Sends-Stalls : {s t : Store} → Sends s t → Stalls s t
Sends-Stalls (inl same) = record {
  stands = ap (λ r. map progress r.instances) same;
  steps = ap (λ r. r.steps) same;
  outbox = ap (λ r. r.outbox) same;
}
Sends-Stalls (inr (m, same)) = record {
  stands = ap (λ r. map progress r.instances) same;
  steps = ap (λ r. r.steps) same;
  outbox = ap (λ r. r.outbox) same;
}

map-update_where :
    (q : Instance → Bool) (f : Instance → Instance)
    (same : (i : Instance) → progress (f i) ≡ progress i) (is : List Instance)
    → map progress (update_where q f is) ≡ map progress is
map-update_where q f same [] = refl
map-update_where q f same (i ∷ is) = elim (Bool-cases (q i)) [
  | inl hit ↦ rw (hit, same i, map-update_where q f same is) refl
  | inr miss ↦ rw (miss, map-update_where q f same is) refl
]

-- Actions that keep every instance in its place, whether they return or fail.
abbrev KeepsPlace : {A : Type 0} → Db Store A → Type 0
KeepsPlace m = (w : World Store) → Post (λ _ v. Stalls w.db v.db) (λ _ v. Stalls w.db v.db) (m w)

pure-KeepsPlace : {A : Type 0} (a : A) → KeepsPlace (pure a)
pure-KeepsPlace a w = pure-Post a w (Stalls-refl w.db)

module _ {A B : Type 0} where
  bind-KeepsPlace :
      (m : Db Store A) (f : A → Db Store B)
      → KeepsPlace m
      → ((a : A) → KeepsPlace (f a))
      → KeepsPlace (m >>= f)
  bind-KeepsPlace m f h k w = bind-Post m f w (
      Post-map (λ a v p. Post-map (λ _ u q. Stalls-trans p q) (λ _ u q. Stalls-trans p q) (k a v))
        (λ e v p. p) (h w))

-- An UPDATE that keeps the place of the rows.
module _ (q : Instance → Bool) (f : Instance → Instance)
    (same : (i : Instance) → progress (f i) ≡ progress i) where
  abbrev updated : Store → Store
  updated s = record s { instances = update_where q f s.instances }

  updated-Stalls : (s : Store) → Stalls s (updated s)
  updated-Stalls s = record {
    stands = map-update_where q f same s.instances;
    steps = refl;
    outbox = refl;
  }

  exec-KeepsPlace : (e : Error) → KeepsPlace (exec e updated)
  unfolding exec
  exec-KeepsPlace e w =
      attempt-Post e (λ v. (ok tt, record v { db = updated v.db })) w (Stalls-refl w.db)
        (returns (updated-Stalls w.db))

mark_failed-KeepsPlace : (id : ℕ) (message : String) → KeepsPlace (mark_failed id message)
unfolding mark_failed
mark_failed-KeepsPlace id message w =
    now_then _ w (try-Post _ w (exec-KeepsPlace _ _ (λ i. refl) _ w))

settle-KeepsPlace : (id : ℕ) (r : Result (Unit {0})) → KeepsPlace (settle id r)
unfolding settle
settle-KeepsPlace id (ok a) = pure-KeepsPlace 1
settle-KeepsPlace id (err e) =
    bind-KeepsPlace _ _ (mark_failed-KeepsPlace id e.code) λ _. pure-KeepsPlace 0

outcome-KeepsPlace : (i : Instance) → KeepsPlace (outcome (advance i))
outcome-KeepsPlace i w =
    outcome-Post _ w
      (Post-map (λ _ v h. Sends-Stalls h) (λ _ v h. Sends-Stalls h) (advance-Post i w))

advance_all-KeepsPlace : (batch : List Instance) → KeepsPlace (advance_all batch)
unfolding advance_all
advance_all-KeepsPlace [] = pure-KeepsPlace 0
advance_all-KeepsPlace (i ∷ batch) = bind-KeepsPlace _ _ (outcome-KeepsPlace i) λ r.
    bind-KeepsPlace _ _ (settle-KeepsPlace i.id r)
      λ n. bind-KeepsPlace _ _ (advance_all-KeepsPlace batch) λ m. pure-KeepsPlace (n + m)

claim-KeepsPlace : (limit : ℕ) → KeepsPlace (claim limit)
unfolding claim attempt
claim-KeepsPlace limit w = elim (Bool-cases (w.fault w.statement)) [
  | inl down ↦ rw down (fails (Stalls-refl w.db))
  | inr up ↦ rw up (returns (updated-Stalls (is_among _) (touch w.now) (λ i. refl) w.db))
]

scan-KeepsPlace :
    (batch : List Instance) → KeepsPlace (attempt (internal_error "db.scan_failed") (pure batch))
scan-KeepsPlace batch w = attempt-Post _ _ w (Stalls-refl w.db) (pure-Post _ _ (Stalls-refl w.db))

tick-KeepsPlace : (limit : ℕ) → KeepsPlace (tick limit)
unfolding tick
tick-KeepsPlace limit =
    bind-KeepsPlace _ _ (claim-KeepsPlace _)
      λ batch. bind-KeepsPlace _ _ (scan-KeepsPlace batch) advance_all-KeepsPlace

-- The world after a Tick at each of the times, with the given limits.
unfoldable pub run_ticks : List (ℕ × ℕ) → World Store → World Store
run_ticks [] w = w
run_ticks ((time, limit) ∷ rest) w = run_ticks rest (tick limit (record w { now = time })).1

-- However often Tick runs, at whatever times and whatever statements fail, every instance stands
-- at the step and the timer where it stood, and no step and no event was written.
pub run_ticks-Stalls : (ticks : List (ℕ × ℕ)) (w : World Store) → Stalls w.db (run_ticks ticks w).db
unfolding run_ticks
run_ticks-Stalls [] w = Stalls-refl w.db
run_ticks-Stalls ((time, limit) ∷ rest) w =
    Stalls-trans
      (Post-world (λ v. Stalls w.db v.db) _ (tick-KeepsPlace limit (record w { now = time }))
        (λ _ v h. h) (λ _ v h. h))
      (run_ticks-Stalls rest _)
