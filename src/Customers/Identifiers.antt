-- ===== src/Customers/Identifiers.antt =====
-- NormalizeIdentifier of internal/customers/service.go. A text is the list of its code points.
-- `to_lower` is unicode.ToLower, which strings.ToLower applies to each of them.
use orvexa.Base.{
  ◌∷◌, Bool, not, ℕ, char_bytes, if◌then◌else◌, List, Option, leb, ◌+◌, ◌&&◌, false, ◌||◌, map,
  is_space, true, ◌==◌, ltb, some, length, [],
}
use orvexa.Bytes.{break_at, codes}
use orvexa.Errors.{Result, err, ok, invalid_error}
use mathlib.Core.List.{[]}
use mathlib.Core.Option.{none}

abbrev pub Text : Type 0
Text = List ℕ

-- The types have the strings of the constants.
pub data IdType : Type 0 where
  phone whatsapp email external_crm handle : IdType
  unknown_type : Text → IdType

unfoldable pub type_name : IdType → Text
type_name phone = codes "phone"
type_name whatsapp = codes "whatsapp"
type_name email = codes "email"
type_name external_crm = codes "external_crm"
type_name handle = codes "handle"
type_name (unknown_type name) = name

unfoldable pub trim_left : Text → Text
trim_left [] = []
trim_left (c ∷ s) = let rest = trim_left s in if is_space c then rest else c ∷ s

abbrev pub is_empty : Text → Bool
is_empty [] = true
is_empty (c ∷ s) = false

unfoldable pub trim_right : Text → Text
trim_right [] = []
trim_right (c ∷ s) = let rest = trim_right s in if is_space c && is_empty rest then [] else c ∷ rest

-- strings.TrimSpace
unfoldable pub trim : Text → Text
trim s = trim_right (trim_left s)

-- len of a string
unfoldable pub size : Text → ℕ
unfolding char_bytes
size [] = 0
size (c ∷ s) = char_bytes c + size s

-- strings.ReplaceAll(v, " ", "")
unfoldable pub without_blanks : Text → Text
without_blanks [] = []
without_blanks (c ∷ s) = let rest = without_blanks s in if c == b' ' then rest else c ∷ rest

-- strings.TrimPrefix(v, "00")
unfoldable pub trim_zeros : Text → Text
trim_zeros [] = []
trim_zeros (c ∷ []) = c ∷ []
trim_zeros (c ∷ d ∷ s) = if c == b'0' && d == b'0' then s else c ∷ d ∷ s

unfoldable pub with_plus : Text → Text
with_plus [] = b'+' ∷ []
with_plus (c ∷ s) = if c == b'+' then c ∷ s else b'+' ∷ c ∷ s

abbrev pub is_digit : ℕ → Bool
is_digit c = leb b'0' c && leb c b'9'

unfoldable pub all_of : (ℕ → Bool) → Text → Bool
all_of p [] = true
all_of p (c ∷ s) = p c && all_of p s

unfoldable pub digits_match : Text → Bool
unfolding all_of
digits_match s = all_of is_digit s && leb 7 (length s) && leb (length s) 15

-- phoneRe: ^\+?[0-9]{7,15}$
unfoldable pub phone_matches : Text → Bool
unfolding digits_match
phone_matches [] = false
phone_matches (c ∷ s) = if c == b'+' then digits_match s else digits_match (c ∷ s)

-- [^@\s]
abbrev pub is_plain : ℕ → Bool
is_plain c = not (c == b'@' || c == b' ' || c == 9 || c == 10 || c == 12 || c == 13)

-- A full stop with something behind it.
unfoldable pub has_stop : Text → Bool
has_stop [] = false
has_stop (c ∷ s) = c == b'.' && not (is_empty s) || has_stop s

unfoldable pub has_inner_stop : Text → Bool
unfolding has_stop
has_inner_stop [] = false
has_inner_stop (c ∷ s) = has_stop s

unfoldable pub parts_match : Option (Text × Text) → Bool
unfolding all_of has_inner_stop
parts_match none = false
parts_match (some (local, domain)) =
    not (is_empty local) && all_of is_plain local && all_of is_plain domain && has_inner_stop domain

-- emailRe: ^[^@\s]+@[^@\s]+\.[^@\s]+$
unfoldable pub email_matches : Text → Bool
unfolding parts_match
email_matches s = parts_match (break_at b'@' s)

unfoldable pub accepted : Bool → Text → Result Text
accepted fits v = if fits then ok v else err (invalid_error "customer.invalid_identifier")

unfoldable pub normal_phone : Text → Text
unfolding with_plus trim_zeros without_blanks
normal_phone v = with_plus (trim_zeros (without_blanks v))

unfoldable pub normalize_phone : Text → Result Text
unfolding accepted normal_phone phone_matches
normalize_phone v = accepted (phone_matches (normal_phone v)) (normal_phone v)

unfoldable pub normalize_name : Text → Result Text
unfolding accepted size
normalize_name v = accepted (not (is_empty v || ltb 256 (size v))) v

module _ (to_lower : ℕ → ℕ) where
  unfoldable pub normalize_email : Text → Result Text
  unfolding accepted email_matches
  normalize_email v = accepted (email_matches (map to_lower v)) (map to_lower v)

  unfoldable pub normalize_identifier : IdType → Text → Result Text
  unfolding trim normalize_phone normalize_email normalize_name
  normalize_identifier phone value = normalize_phone (trim value)
  normalize_identifier whatsapp value = normalize_phone (trim value)
  normalize_identifier email value = normalize_email (trim value)
  normalize_identifier external_crm value = normalize_name (trim value)
  normalize_identifier handle value = normalize_name (trim value)
  normalize_identifier (unknown_type name) value =
      err (invalid_error "customer.invalid_identifier_type")
