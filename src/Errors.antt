-- ===== src/Errors.antt =====
-- pkg/errors/errors.go: the error model that every service returns, and its HTTP statuses.
-- A private cause and the structured details never reach a decision, and are left out.
use orvexa.Base.{ℕ, String, Bool, true, false}

pub data Kind : Type 0 where
  invalid not_found conflict rate_limited unauthorized forbidden internal : Kind

pub record Error : Type 0 where
  pub kind : Kind
  pub code : String

pub data Result {ℓ} (A : Type ℓ) : Type ℓ where
  ok : A → Result A
  err : Error → Result A

unfoldable pub http_status : Kind → ℕ
http_status invalid = 422
http_status not_found = 404
http_status conflict = 409
http_status rate_limited = 429
http_status unauthorized = 401
http_status forbidden = 403
http_status internal = 500

abbrev pub is_ok {ℓ} : {A : Type ℓ} → Result A → Bool
is_ok (ok a) = true
is_ok (err e) = false

-- `Invalid`, `NotFound`, `Conflict`, `RateLimited`, `Unauth`, `Forbidden` and `Internal`.
abbrev pub invalid_error : String → Error
invalid_error c = record { kind = invalid; code = c }

abbrev pub not_found_error : String → Error
not_found_error c = record { kind = not_found; code = c }

abbrev pub conflict_error : String → Error
conflict_error c = record { kind = conflict; code = c }

abbrev pub rate_limited_error : String → Error
rate_limited_error c = record { kind = rate_limited; code = c }

abbrev pub unauth_error : String → Error
unauth_error c = record { kind = unauthorized; code = c }

abbrev pub forbidden_error : String → Error
forbidden_error c = record { kind = forbidden; code = c }

abbrev pub internal_error : String → Error
internal_error c = record { kind = internal; code = c }
