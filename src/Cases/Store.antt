-- ===== src/Cases/Store.antt =====
-- The lifecycle and the tables of internal/cases/service.go (migration 0005). A reference
-- CASE-<year>-<number> is the pair of its numbers; its padding is presentation.
use orvexa.Base.{◌∷◌, Bool, List, ℕ, any, ◌==◌, [], String, true, ◌++◌, ◌&&◌, ◌||◌, false, Option}
use orvexa.Events.{Envelope}

pub data Status : Type 0 where
  open_case in_progress pending_customer resolved closed canceled : Status

abbrev pub same_status : Status → Status → Bool
same_status open_case open_case = true
same_status in_progress in_progress = true
same_status pending_customer pending_customer = true
same_status resolved resolved = true
same_status closed closed = true
same_status canceled canceled = true
same_status _ _ = false

unfoldable pub transitions : Status → List Status
transitions open_case = in_progress ∷ resolved ∷ canceled ∷ []
transitions in_progress = pending_customer ∷ resolved ∷ canceled ∷ []
transitions pending_customer = in_progress ∷ resolved ∷ canceled ∷ []
transitions resolved = closed ∷ in_progress ∷ []
transitions closed = []
transitions canceled = []

unfoldable pub can_transition : Status → Status → Bool
unfolding transitions
can_transition from to = any (λ s. same_status s to) (transitions from)

pub record Case : Type 0 where
  pub id : ℕ
  pub tenant_id : ℕ
  pub customer_id : ℕ
  pub year : ℕ
  pub number : ℕ
  pub subject : String
  pub description : String
  pub status : Status
  pub priority : String
  pub resolved_at : Option ℕ
  pub closed_at : Option ℕ
  pub updated_at : ℕ

pub record Note : Type 0 where
  pub id : ℕ
  pub case_id : ℕ
  pub tenant_id : ℕ
  pub author_type : String
  pub author_id : String
  pub body : String
  pub is_internal : Bool

pub record Store : Type 0 where
  pub customers : List (ℕ × ℕ)
  pub interactions : List (ℕ × ℕ)
  pub cases : List Case
  pub notes : List Note
  pub links : List (ℕ × ℕ)
  pub outbox : List Envelope

abbrev pub put_event : Envelope → Store → Store
put_event e s = record s { outbox = s.outbox ++ e ∷ [] }

abbrev pub is_case : ℕ → ℕ → Case → Bool
is_case tenant id c = c.id == id && c.tenant_id == tenant

-- WHERE tenant_id = $1 AND ref LIKE 'CASE-<year>-%'
abbrev pub is_of_year : ℕ → ℕ → Case → Bool
is_of_year tenant year c = c.tenant_id == tenant && c.year == year

-- The primary key and UNIQUE (tenant_id, ref).
abbrev pub clashes : Case → Case → Bool
clashes c d = c.id == d.id || c.tenant_id == d.tenant_id && c.year == d.year && c.number == d.number

abbrev pub owns : ℕ → ℕ → List (ℕ × ℕ) → Bool
owns tenant id rows = any (λ (i, t). i == id && t == tenant) rows
