-- ===== src/Tools/Limit.antt =====
-- Runs of Invoke of internal/tools/gateway.go keep to the platform's limits.
use orvexa.Base.{
  ℕ, Bool, Option, ◌≤◌, List, suc, ◌≡◌, length, if◌then◌else◌, arith, some, ◌+◌, subst, false, sym,
  refl, select, ◌∷◌, ◌++◌, ◌<◌, String, [], leb, ltb,
}
use orvexa.Tools.{Gateway, capped, platform_limit, Call, Reply, invoke_all}
use orvexa.Tools.Windows.{Window, Key, admit, full, room, is_recent, window_of, trimmed, set_window}
use orvexa.Tools.Rate.{
  Counts, recent, Counts-full, length-set_window, Counts-run, Counts-room, run_count, length-select,
}
use mathlib.Core.Option.{none}
use mathlib.Core.Bool.{true}
use orvexa.Errors.{Result}
use orvexa.Tools.Gates.{Effect, idle, limited, key_of, limit_of, malformed, ran, invoke-Effect}

full_or_room :
    (b : Bool) (x y vs : List Window)
    → ((if b then full x else room y) ≡ full vs → vs ≡ x)
      × ((if b then full x else room y) ≡ room vs → (b ≡ false) × (vs ≡ y))
full_or_room true x y vs = ((λ e. cc), λ e. cc)
full_or_room false x y vs = ((λ e. cc), λ e. (refl, cc))

capped-le : (limit : ℕ) (o : Option ℕ) (p : ℕ) → o ≡ some p → capped limit o ≤ p
capped-le limit none p e = cc
capped-le limit (some q) p e = ground (arith, same)
  where
    same : q ≡ p
    same = cc

-- The windows account for the log, and there is room for `left` windows more.
record Fits (now left : ℕ) (g : Gateway) : Type 0 where
  fit : Counts now g.windows g.executions
  few : length g.windows + left ≤ 10000

module _ (now time left : ℕ) (le : now ≤ time) (g : Gateway) (f : Fits now (suc left) g) where
  later : Fits time left g
  later = record {
    fit = record {
      counts = λ k t late. f.fit.counts k t (omega (arith, le, late));
      caps = f.fit.caps;
    };
    few = omega (arith, f.few);
  }

  module _ (k : Key) (limit : ℕ) (vs : List Window) where
    full-Fits : admit time k limit g.windows ≡ full vs → Fits time left (record g { windows = vs })
    unfolding admit recent
    full-Fits h =
        let e = (full_or_room _ _ _ vs).0 h in
        record {
          fit =
              subst (λ w. Counts time w g.executions) (sym e)
                (Counts-full now time le k g.windows g.executions f.fit);
          few = rw e (
              omega (
                arith,
                f.few,
                length-set_window k (select (is_recent time) (window_of k g.windows)) g.windows,
              ));
        }

    -- The windows after an admission; with few of them the trim does nothing.
    room-window :
        admit time k limit g.windows ≡ room vs
        → (length (recent now time le k g.windows g.executions f.fit) < limit)
          × (vs
              ≡ set_window k
                  (recent now time le k g.windows g.executions f.fit ++ time ∷ [])
                  g.windows)
    unfolding admit recent trimmed
    room-window h =
        let r = select (is_recent time) (window_of k g.windows) in
        let q = (full_or_room (leb limit (length r)) _ _ vs).1 h in
        let small = length-set_window k (r ++ time ∷ []) g.windows in
        (
          ground (arith, q.0),
          untrimmed (ltb 10000 (length (set_window k (r ++ time ∷ []) g.windows)))
              (record { key = k; times = r ++ time ∷ [] } ∷ [])
              (set_window k (r ++ time ∷ []) g.windows) (ground (arith, f.few, small)) q.1,
        )
      where
        untrimmed : (b : Bool) (x y : List Window) → b ≡ false → vs ≡ (if b then x else y) → vs ≡ y
        untrimmed b x y e h = ground (arith, e, h)

    module _ (h : admit time k limit g.windows ≡ room vs)
        (under : (p : ℕ) → platform_limit k.1 ≡ some p → limit ≤ p) where
      few_room : length vs + left ≤ 10000
      few_room = rw ((room-window h).1) (
          omega (
            arith,
            f.few,
            length-set_window k (recent now time le k g.windows g.executions f.fit ++ time ∷ [])
                g.windows,
          ))

      room-Counts : Counts time vs g.executions
      room-Counts =
          subst (λ w. Counts time w g.executions) (sym (room-window h).1)
            (Counts-room now time le k g.windows g.executions f.fit limit (room-window h).0 under)

      run-Counts : Counts time vs (record { key = k; at = time } ∷ g.executions)
      run-Counts =
          subst (λ w. Counts time w (record { key = k; at = time } ∷ g.executions))
            (sym (room-window h).1)
            (Counts-run now time le k g.windows g.executions f.fit limit (room-window h).0 under)

module _ (policies : ℕ → ℕ → Result (List (String × ℕ))) (execute : Call → Result String) where
  step-Fits :
      (now time left : ℕ) (c : Call) (g : Gateway) (r : Reply)
      → now ≤ time
      → Fits now (suc left) g
      → Effect policies time c g r
      → Fits time left r.gateway
  step-Fits now time left c g r le f (idle w e o) =
      let l = later now time left le g f in record { fit = rw (w, e) l.fit; few = rw w l.few }
  step-Fits now time left c g r le f (limited a w e o) =
      let l = full-Fits now time left le g f (key_of c) (limit_of c a.allow) _ w in
      record { fit = rw e l.fit; few = l.few }
  step-Fits now time left c g r le f (malformed a w v e o) = record {
    fit = rw e (
        room-Counts now time left le g f (key_of c) (limit_of c a.allow) _ w
          (λ p h. capped-le _ _ p h));
    few =
        few_room now time left le g f (key_of c) (limit_of c a.allow) _ w
          (λ p h. capped-le _ _ p h);
  }
  step-Fits now time left c g r le f (ran a w v e o) = record {
    fit = rw e (
        run-Counts now time left le g f (key_of c) (limit_of c a.allow) _ w
          (λ p h. capped-le _ _ p h));
    few =
        few_room now time left le g f (key_of c) (limit_of c a.allow) _ w
          (λ p h. capped-le _ _ p h);
  }

-- The times do not run backwards.
abbrev pub InOrder : ℕ → List (ℕ × Call) → Type 0
InOrder now [] = Unit
InOrder now ((time, c) ∷ calls) = (now ≤ time) × InOrder time calls

abbrev pub last_time : ℕ → List (ℕ × Call) → ℕ
last_time now [] = now
last_time now ((time, c) ∷ calls) = last_time time calls

-- NewGateway
unfoldable pub new_gateway : Gateway
new_gateway = record { windows = []; executions = []; audits = [] }

module _ (policies : ℕ → ℕ → Result (List (String × ℕ))) (execute : Call → Result String) where
  run-Fits :
      (now left : ℕ) (calls : List (ℕ × Call)) (g : Gateway)
      → InOrder now calls
      → Fits now (length calls + left) g
      → Fits (last_time now calls) left (invoke_all policies execute calls g)
  unfolding invoke_all
  run-Fits now left [] g h f = record { fit = f.fit; few = omega (arith, f.few) }
  run-Fits now left ((time, c) ∷ calls) g h f = run-Fits time left calls _ h.1 (
      step-Fits policies execute now time (length calls + left) c g _ h.0
        (record { fit = f.fit; few = omega (arith, f.few) })
        (invoke-Effect policies execute time c g).0)

new_gateway-Fits : (now left : ℕ) → left ≤ 10000 → Fits now left new_gateway
unfolding new_gateway window_of
new_gateway-Fits now left le = record {
  fit = record { counts = λ k t late. omega arith; caps = λ k p e. omega arith };
  few = omega (arith, le);
}

-- In a run of at most 10,000 calls of a new gateway, in the order of their times, at most as many
-- executions of a tool for an agent started within the last minute as the platform's limit of the
-- tool says, whatever the policies allow and whatever the executor returns.
pub invoke_all-limit :
    (policies : ℕ → ℕ → Result (List (String × ℕ))) (execute : Call → Result String) (now : ℕ)
    (calls : List (ℕ × Call)) (k : Key) (p t : ℕ)
    → InOrder now calls
    → length calls ≤ 10000
    → platform_limit k.1 ≡ some p
    → last_time now calls ≤ t
    → run_count t k (invoke_all policies execute calls new_gateway).executions ≤ p
invoke_all-limit policies execute now calls k p t order few lim late =
    let f =
      run-Fits policies execute now 0 calls new_gateway order
        (new_gateway-Fits now _ (omega (arith, few))) in
    let g = invoke_all policies execute calls new_gateway in
    omega (
      arith,
      f.fit.counts k t late,
      length-select (is_recent t) (window_of k g.windows),
      f.fit.caps k p lim,
    )
