-- ===== src/Conversations/Closing.antt =====
-- A conversation of internal/conversations/service.go that is closed stays as it was closed.
use orvexa.Base.{
  ◌∷◌, Bool, ℕ, String, find, ◌≡◌, List, Option, ◌⊎◌, some, true, update_where, false, sym,
  Bool-cases, ◌++◌, [], ◌∙◌, inl, find-update_where, subst, ap, refl, inr,
}
use orvexa.Conversations.{
  Store, Conversation, close, get, or_not_found, put_event, is_open, end_row, is_conversation,
}
use orvexa.Database.Rules.{
  Post, counted, raise-Post, pure-Post, read_then, fails, begin_then, tx_read_then, guard_then,
  now_then, tx_exec_then, commit_then,
}
use orvexa.Events.{Envelope}
use orvexa.Database.{World, ◌>>=◌, Db}
use orvexa.Errors.{Error, not_found_error}
use mathlib.Core.Option.{none}
use orvexa.Events.Rules.{new_envelope_then, insert_event_then}

-- A row that the test does not choose is found as it was.
pub find-update_elsewhere :
    (p q : Conversation → Bool) (f : Conversation → Conversation)
    (same : (c : Conversation) → p (f c) ≡ p c) (rows : List Conversation) (c : Conversation)
    → find p rows ≡ some c
    → q c ≡ false
    → find p (update_where q f rows) ≡ some c
find-update_elsewhere p q f same [] c h out = cc
find-update_elsewhere p q f same (x ∷ rows) c h out = elim (Bool-cases (p x)) [
  | inl here ↦
      let is_c : x ≡ c = some_same x c (rw here at h) in
      rw (subst (λ y. q y ≡ false) (sym is_c) out, here) (ap some is_c)
  | inr on ↦
      let rest = find-update_elsewhere p q f same rows c (rw on at h) out in
      elim (Bool-cases (q x)) [
        | inl chosen ↦ rw (chosen, same x, on) rest
        | inr kept ↦ rw (kept, on) rest
      ]
]
  where
    some_same : (a b : Conversation) → some a ≡ some b → a ≡ b
    some_same a b e = cc

-- Every closed conversation is found as it was.
abbrev pub Keeps : Store → Store → Type 0
Keeps s s' =
    (t i : ℕ) (c : Conversation)
    → find (is_conversation t i) s.conversations ≡ some c
    → is_open c.status ≡ false
    → find (is_conversation t i) s'.conversations ≡ some c

pub record Closes (tenant id : ℕ) (w : World Store) (cur : Conversation) (e : Envelope) (s : Store)
    : Type 0 where
  pub was : find (is_conversation tenant id) w.db.conversations ≡ some cur
  pub was_open : is_open cur.status ≡ true
  pub topic : e.topic ≡ "conversation.closed"
  pub about : (e.subject ≡ id) × (e.tenant_id ≡ tenant)
  pub rows :
      s.conversations ≡ update_where (is_conversation tenant id) (end_row w.now) w.db.conversations
  pub outbox : s.outbox ≡ w.db.outbox ++ e ∷ []

module _ {μ υ} {Q : Conversation → World Store → Type μ} {E : Error → World Store → Type υ} where
  or_not_found_then :
      (row : Option Conversation) (f : Conversation → Db Store Conversation) (w : World Store)
      → E (not_found_error "conversation.not_found") w
      → ((c : Conversation) → row ≡ some c → Post Q E (f c w))
      → Post Q E ((or_not_found row >>= f) w)
  unfolding or_not_found ◌>>=◌
  or_not_found_then none f w h k = fails h
  or_not_found_then (some c) f w h k = k c refl

  pub get-Post :
      (tenant id : ℕ) (w : World Store)
      → ((e : Error) → E e (counted w))
      → ((c : Conversation)
          → find (is_conversation tenant id) w.db.conversations ≡ some c
          → Q c (counted w))
      → Post Q E (get tenant id w)
  unfolding get or_not_found
  get-Post tenant id w h k =
      read_then _ _ _ _ (h _) (found (find (is_conversation tenant id) w.db.conversations) k)
    where
      found :
          (row : Option Conversation)
          → ((c : Conversation) → row ≡ some c → Q c (counted w))
          → Post Q E (or_not_found row (counted w))
      found none k = raise-Post _ _ (h _)
      found (some c) k = pure-Post _ _ (k c refl)

-- Close commits the end of an open conversation together with its event, and answers the row as
-- it ended it. Any error has committed nothing, unless only the last read failed.
pub close-Post :
    (tenant id : ℕ) (reason : String) (w : World Store)
    → Post
        (λ c v.
          (cur : Conversation) × (e : Envelope) × Closes tenant id w cur e v.db
          × (c ≡ end_row w.now cur))
        (λ x v.
          (v.db ≡ w.db) ⊎ ((cur : Conversation) × (e : Envelope) × Closes tenant id w cur e v.db))
        (close tenant id reason w)
unfolding close end_row
close-Post tenant id reason w = begin_then _ _ _ (inl refl) (
    tx_read_then _ _ _ _ (inl refl) (
      or_not_found_then _ _ _ (inl refl) λ cur was. guard_then _ _ _ _ (inl refl) λ was_open.
        now_then _ _ (
          tx_exec_then _ _ _ _ (inl refl) (
            new_envelope_then _ _ _ _ _ _ λ env said.
              insert_event_then put_event env _ _ (inl refl) (inl refl) λ e is_e.
                commit_then _ _ _ (inl refl) (
                  let d = said e is_e in
                  let done : (s : Store)
                      → s
                        ≡ put_event e (record (w.db) {
                          conversations =
                              update_where (is_conversation tenant id) (end_row w.now)
                                w.db.conversations;
                        })
                      → Closes tenant id w cur e s =
                    λ s same. record {
                      was = was;
                      was_open = was_open;
                      topic = d.says;
                      about = (d.of, d.within);
                      rows = ap (λ s. s.conversations) same;
                      outbox = ap (λ s. s.outbox) same;
                    } in
                  get-Post tenant id _ (λ x. inr (cur, e, done _ refl))
                    λ c here. (cur, e, done _ refl, answered cur c was here))))))
  where
    answered :
        (cur c : Conversation)
        → find (is_conversation tenant id) w.db.conversations ≡ some cur
        → find
            (is_conversation tenant id)
            (update_where (is_conversation tenant id) (end_row w.now) w.db.conversations)
          ≡ some c
        → c ≡ end_row w.now cur
    answered cur c was here = some_same c (end_row w.now cur) (
        sym here
        ∙ find-update_where (is_conversation tenant id) (end_row w.now) (λ r p. kept r p)
            w.db.conversations cur was)
      where
        some_same : (a b : Conversation) → some a ≡ some b → a ≡ b
        some_same a b e = cc

        kept :
            (r : Conversation)
            → is_conversation tenant id r ≡ true
            → is_conversation tenant id (end_row w.now r) ≡ true
        kept r p = p
