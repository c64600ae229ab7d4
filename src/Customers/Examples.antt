-- ===== src/Customers/Examples.antt =====
-- A customer with a telephone number and an address in several spellings.
use orvexa.Base.{
  char_bytes, ◌∷◌, ℕ, [], is_space, ◌≡◌, true, if◌then◌else◌, none, false, arith, leb, ◌⊎◌, ◌&&◌,
  refl, ◌+◌, inl, ◌==◌, some,
}
use orvexa.Bytes.{codes}
use orvexa.Customers.Identifiers.{
  Text, normalize_identifier, trim, phone, trim_left, email, trim_right, normalize_phone,
  normal_phone, with_plus, trim_zeros, without_blanks, phone_matches, digits_match, all_of,
  accepted,
}
use orvexa.Customers.Service.{
  Store, CreateInput, create, Customer, row_of, Identifier, resolve, Reading,
}
use orvexa.Database.{World, ◌>>=◌}
use orvexa.Database.Rules.{Post}
use orvexa.Customers.Creating.{Creates, create-Creates, IsRead}
use orvexa.Errors.{ok, internal}
use orvexa.Customers.Normal.{normalize_identifier-again}
use orvexa.Customers.Resolving.{resolve-create}
use orvexa.Customers.Identifiers.{
  type_name, email_matches, has_inner_stop, has_stop, normalize_email, normalize_name, parts_match,
  size,
}
use orvexa.Customers.Service.{
  normalize_all, insert_customer, insert_identifiers, insert_identifier, is_identifier, insert_tags,
  dedupe, insert_tag, get, or_not_found, attach_relations, add_identifier, cons_ok, default_str,
}
use orvexa.Database.{attempt, begin, commit, fresh, guard, lift, pure, raise, read}
use orvexa.Bytes.{break_at, extend}
use orvexa.Database.Inserting.{tx_insert}
use orvexa.Database.Querying.{query_rows}

abbrev lower_rune : ℕ → ℕ
lower_rune c = if leb b'A' c && leb c b'Z' then c + 32 else c

lower_rune-again : (c : ℕ) → lower_rune (lower_rune c) ≡ lower_rune c
lower_rune-again c = ground arith

is_space-lower_rune : (c : ℕ) → is_space (lower_rune c) ≡ is_space c
unfolding is_space
is_space-lower_rune c = ground arith

-- Nothing breaks off.
abbrev whole : Reading
whole = record { by_tag = λ n tags. tags; by_created = λ n rows. rows; broken = λ n. none }

-- The second query for relations breaks off before its first row.
abbrev untagged : Reading
untagged = record whole { broken = λ n. if n == 15 then some 0 else none }

abbrev number : Text
number = codes "+254712345678"

abbrev spelt : Identifier
spelt = record { id_type = phone; value = codes " 00254 712 345678 "; is_primary = true }

abbrev address : Identifier
address = record { id_type = email; value = codes "Amina@Example.org"; is_primary = false }

abbrev input : CreateInput
input = record {
  display_name = codes "Amina";
  company = [];
  language = [];
  timezone = [];
  attributes = none;
  identifiers = spelt ∷ address ∷ [];
  tags = codes "vip" ∷ codes "vip" ∷ [];
}

abbrev empty : Store
empty = record { customers = []; identifiers = []; tags = [] }

abbrev world : World Store
world = record { db = empty; tx = empty; fault = λ n. false; statement = 0; next_id = 7; now = 100 }

is_number : normalize_identifier lower_rune phone (codes " 00254 712 345678 ") ≡ ok number
unfolding normalize_identifier trim trim_left trim_right is_space normalize_phone normal_phone
    with_plus trim_zeros without_blanks phone_matches digits_match all_of accepted
is_number = refl

normalize_identifier-again_example : normalize_identifier lower_rune phone number ≡ ok number
normalize_identifier-again_example =
    normalize_identifier-again lower_rune lower_rune-again is_space-lower_rune phone
      (codes " 00254 712 345678 ") number is_number

create-Creates_example :
    Post
      (λ c v.
        Creates lower_rune whole 1 input world v.db
        × IsRead lower_rune whole 1 (row_of lower_rune 1 7 input) v.db c)
      (λ e v.
        (v.db ≡ world.db) ⊎ (Creates lower_rune whole 1 input world v.db × (e.kind ≡ internal)))
      (create lower_rune whole 1 input world)
create-Creates_example = create-Creates lower_rune whole 1 input world

abbrev amina : Customer
amina = record {
  row = row_of lower_rune 1 7 input;
  tags = codes "vip" ∷ [];
  identifiers =
      (record spelt { value = number })
      ∷ (record address { value = codes "amina@example.org" })
      ∷ [];
}

is_amina : (create lower_rune whole 1 input world).0 ≡ ok amina
unfolding create ◌>>=◌ normalize_all normalize_identifier trim_right trim_left is_space break_at
    type_name insert_customer insert_identifiers insert_identifier is_identifier insert_tags dedupe
    insert_tag tx_insert get or_not_found attach_relations query_rows char_bytes extend accepted
    all_of digits_match email_matches has_inner_stop has_stop normal_phone normalize_email
    normalize_name normalize_phone parts_match phone_matches size trim trim_zeros with_plus
    without_blanks add_identifier cons_ok default_str attempt begin commit fresh guard lift pure
    raise read
is_amina = refl

resolve-create_example :
    Post
      (λ d x.
        (d.row ≡ row_of lower_rune 1 7 input)
        × IsRead lower_rune untagged 1
            (row_of lower_rune 1 7 input)
            (create lower_rune whole 1 input world).1.db
            d)
      (λ e x. e.kind ≡ internal)
      (resolve lower_rune untagged 1 phone
        (codes " 00254 712 345678 ")
        (create lower_rune whole 1 input world).1)
resolve-create_example =
    resolve-create lower_rune whole untagged 1 input world (create lower_rune whole 1 input world).1
      spelt amina tt is_amina (inl refl) refl
