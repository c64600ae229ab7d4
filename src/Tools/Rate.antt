-- ===== src/Tools/Rate.antt =====
-- The call rate that the gateway of internal/tools/gateway.go guarantees.
use orvexa.Base.{
  ◌∷◌, ℕ, Bool, List, length, ◌≡◌, ◌≤◌, if◌then◌else◌, select, true, arith, Bool-cases, ◌++◌, ◌&&◌,
  [], eq_iff, inl, inr, refl, ◌+◌, false, ◌<◌, some, ap, sym, length-append,
}
use orvexa.Tools.Windows.{Key, window_of, set_window, same_key, Window, is_recent}
use orvexa.Tools.{Execution, platform_limit}
use mathlib.Core.List.{[]}

-- How many of the times are less than a minute before `time`.
abbrev pub fresh_count : ℕ → List ℕ → ℕ
fresh_count time ts = length (select (is_recent time) ts)

-- How many executions of the key started less than a minute before `time`.
abbrev pub run_count : ℕ → Key → List Execution → ℕ
run_count time k log = length (select (λ e. same_key e.key k && is_recent time e.at) log)

same_key-eq : (k j : Key) → same_key k j ≡ true → k ≡ j
same_key-eq (a, t) (b, u) h = pair (ground (arith, h)) (ground (arith, eq_iff t u, h))
  where
    pair : a ≡ b → t ≡ u → ◌≡◌ {A = Key} (a, t) (b, u)
    pair p q = cc

window_of-set_window :
    (k j : Key) (ts : List ℕ) (ws : List Window)
    → window_of j (set_window k ts ws) ≡ (if same_key k j then ts else window_of j ws)
unfolding window_of set_window
window_of-set_window k j ts [] = refl
window_of-set_window k j ts (w ∷ ws) = elim (Bool-cases (same_key w.key k)) [
  | inl here ↦
      rw (here, same_key-eq w.key k here)
        (elim (Bool-cases (same_key k j)) [ inl hit ↦ rw hit refl | inr miss ↦ rw (miss) refl ])
  | inr on ↦ rw on (elim (Bool-cases (same_key w.key j)) [
    | inl hit ↦ rw (hit, apart on hit) refl
    | inr miss ↦ rw (miss, window_of-set_window k j ts ws) refl
  ])
]
  where
    apart : same_key w.key k ≡ false → same_key w.key j ≡ true → same_key k j ≡ false
    apart on hit = elim (Bool-cases (same_key k j)) [
      | inl eq ↦ absurd (cc (ap (same_key w.key) (same_key-eq k j eq), on, hit))
      | inr differ ↦ differ
    ]

select-append :
    {A : Type 0} (p : A → Bool) (xs : List A) (y : A)
    → length (select p (xs ++ y ∷ [])) ≡ length (select p xs) + (if p y then 1 else 0)
select-append p [] y = ground arith
select-append p (x ∷ xs) y = ground (arith, select-append p xs y)

pub length-select : {A : Type 0} (p : A → Bool) (xs : List A) → length (select p xs) ≤ length xs
length-select p [] = omega arith
length-select p (x ∷ xs) = ground (arith, length-select p xs)

-- Dropping what is old now changes no later count.
fresh_count-select :
    (now later : ℕ) (ts : List ℕ)
    → now ≤ later
    → fresh_count later (select (is_recent now) ts) ≡ fresh_count later ts
fresh_count-select now later [] le = refl
fresh_count-select now later (t ∷ ts) le = ground (arith, fresh_count-select now later ts le)

pub length-set_window :
    (k : Key) (ts : List ℕ) (ws : List Window) → length (set_window k ts ws) ≤ length ws + 1
unfolding set_window
length-set_window k ts [] = omega arith
length-set_window k ts (w ∷ ws) = ground (arith, length-set_window k ts ws)

-- The windows account for the executions at every time from `now` on, and hold no more than the
-- platform's limit.
pub record Counts (now : ℕ) (ws : List Window) (log : List Execution) : Type 0 where
  pub counts : (k : Key) (t : ℕ) → now ≤ t → run_count t k log ≤ fresh_count t (window_of k ws)
  pub caps : (k : Key) (p : ℕ) → platform_limit k.1 ≡ some p → length (window_of k ws) ≤ p

module _ (now time : ℕ) (le : now ≤ time) (k : Key) (ws : List Window) (log : List Execution)
    (c : Counts now ws log) where
  -- A new window for one key.
  Counts-set :
      (ts : List ℕ) (log' : List Execution)
      → ((t : ℕ) → time ≤ t → run_count t k log' ≤ fresh_count t ts)
      → ((j : Key) (t : ℕ) → same_key k j ≡ false → run_count t j log' ≡ run_count t j log)
      → ((p : ℕ) → platform_limit k.1 ≡ some p → length ts ≤ p)
      → Counts time (set_window k ts ws) log'
  Counts-set ts log' own others cap = record {
    counts = λ j t late. rw (window_of-set_window k j ts ws) (count j t late);
    caps = λ j p e. rw (window_of-set_window k j ts ws) (bound j p e);
  }
    where
      count :
          (j : Key) (t : ℕ)
          → time ≤ t
          → run_count t j log' ≤ fresh_count t (if same_key k j then ts else window_of j ws)
      count j t late = elim (Bool-cases (same_key k j)) [
        | inl eq ↦ rw (eq, sym (same_key-eq k j eq)) (own t late)
        | inr differ ↦ rw (differ, others j t differ) (c.counts j t (omega (arith, le, late)))
      ]

      bound :
          (j : Key) (p : ℕ)
          → platform_limit j.1 ≡ some p
          → length (if same_key k j then ts else window_of j ws) ≤ p
      bound j p e = elim (Bool-cases (same_key k j)) [
        | inl eq ↦ rw eq (cap p (rw (same_key-eq k j eq) e))
        | inr differ ↦ rw differ (c.caps j p e)
      ]

  unfoldable pub recent : List ℕ
  recent = select (is_recent time) (window_of k ws)

  recent_counts : (t : ℕ) → time ≤ t → run_count t k log ≤ fresh_count t recent
  unfolding recent
  recent_counts t late =
      rw (fresh_count-select time t (window_of k ws) late) (c.counts k t (omega (arith, le, late)))

  pub Counts-full : Counts time (set_window k recent ws) log
  unfolding recent
  Counts-full =
      Counts-set recent log recent_counts (λ j t d. refl)
        λ p e. omega (arith, length-select (is_recent time) (window_of k ws), c.caps k p e)

  pub Counts-room :
      (limit : ℕ)
      → length recent < limit
      → ((p : ℕ) → platform_limit k.1 ≡ some p → limit ≤ p)
      → Counts time (set_window k (recent ++ time ∷ []) ws) log
  Counts-room limit lt under =
      Counts-set (recent ++ time ∷ []) log
        (λ t late. ground (arith, recent_counts t late, select-append (is_recent t) recent time))
        (λ j t d. refl) λ p e. omega (arith, length-append recent (time ∷ []), lt, under p e)

  pub Counts-run :
      (limit : ℕ)
      → length recent < limit
      → ((p : ℕ) → platform_limit k.1 ≡ some p → limit ≤ p)
      → Counts time (set_window k (recent ++ time ∷ []) ws) (record { key = k; at = time } ∷ log)
  Counts-run limit lt under =
      Counts-set (recent ++ time ∷ []) _
        (λ t late. ground (arith, recent_counts t late, select-append (is_recent t) recent time))
        (λ j t d. rw d refl) λ p e. omega (arith, length-append recent (time ∷ []), lt, under p e)
