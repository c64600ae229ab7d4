-- ===== src/Database/Querying.antt =====
-- pool.Query with a loop over rows.Next and no look at rows.Err: a statement that fails, a row that
-- is not scanned, or an iteration that breaks off, which answers the rows before it and no error.
use orvexa.Base.{ℕ, List, Option, none, some, take}
use orvexa.Errors.{internal_error}
use orvexa.Database.{World, Db, attempt, ◌>>=◌, pure}
use orvexa.Database.Rules.{counted, Post, bind-Post, attempt-Post, returns}
use orvexa.Errors.{Error}

-- The rows of an iteration that broke off after `k` of them, or did not.
abbrev pub cut {ℓ} : {A : Type ℓ} → Option ℕ → List A → List A
cut none rows = rows
cut (some k) rows = take k rows

module _ {ℓ κ} {S : Type ℓ} {A : Type κ} where
  -- `broken n` tells where the iteration of statement n breaks off. The rows of a statement may
  -- depend on its number, where its ORDER BY leaves the database a choice.
  unfoldable pub query_rows : (ℕ → Option ℕ) → (ℕ → S → List A) → Db S (List A)
  query_rows broken f w =
      (attempt (internal_error "db.read_failed") (λ v.
          (attempt (internal_error "db.scan_failed")
              (pure (cut (broken w.statement) (f w.statement v.db))))
            v))
        w

module _ {ℓ κ ι μ υ} {S : Type ℓ} {A : Type κ} {B : Type ι} {Q : B → World S → Type μ}
    {E : Error → World S → Type υ} where
  pub query_rows_then :
      (broken : ℕ → Option ℕ) (f : ℕ → S → List A) (k : List A → Db S B) (w : World S)
      → E (internal_error "db.read_failed") (counted w)
      → E (internal_error "db.scan_failed") (counted (counted w))
      → Post Q E (k (cut (broken w.statement) (f w.statement w.db)) (counted (counted w)))
      → Post Q E ((query_rows broken f >>= k) w)
  unfolding query_rows pure
  query_rows_then broken f k w down odd done =
      bind-Post _ _ _ (attempt-Post _ _ _ down (attempt-Post _ _ _ odd (returns done)))
