-- ===== src/Interactions/Soundness.antt =====
-- The invariant of the interaction tables, kept by every call whatever statement fails.
use orvexa.Interactions.Create.{create}
use orvexa.Interactions.Create.Creation.{create-Post, Creates, Answers}
use orvexa.Interactions.Create.Conversations.{is_home}
use orvexa.Interactions.Service.{transition_to, assign, move_row, assign_row, is_assignable_row}
use orvexa.Interactions.Service.Move.{transition_to-Post, moved}
use orvexa.Interactions.Service.Assignment.{assign-Post, Assigns}
use orvexa.Interactions.Store.{Rec, owns_customer, Store, clashes, is_row}
use orvexa.Base.{
  List, Option, All, ℕ, any, Bool, ◌≡◌, All-update_where, false, none, All-map, ◌++◌, update_where,
  true, some, refl, ◌∷◌, All-append, [], ◌∙◌, arith, if◌then◌else◌, String, inl, inr, subst, sym,
}
use orvexa.Interactions.State.{is_terminal, Status}
use orvexa.Interactions.Input.{CreateInput}
use mathlib.Core.List.{[]}
use orvexa.Database.{World}
use orvexa.Events.{Envelope}
use orvexa.Database.Rules.{Post-world}

abbrev is_some {ℓ} : {A : Type ℓ} → Option A → Bool
is_some none = false
is_some (some a) = true

-- A row has a conversation of its own tenant and customer, its customer is the tenant's, and it
-- has an end exactly when its status is terminal.
pub record IsSoundRow (s : Store) (r : Rec) : Type 0 where
  pub housed : any (is_home r.tenant_id r.customer_id r.conversation_id) s.conversations ≡ true
  pub owned : owns_customer r.tenant_id r.customer_id s ≡ true
  pub timed : is_some r.ended_at ≡ is_terminal r.status

-- No two rows share an id, a provider reference or an idempotency key within a tenant.
abbrev pub Apart : List Rec → Type 0
Apart [] = Unit
Apart (r ∷ rows) = All (λ q. clashes q r ≡ false) rows × Apart rows

pub record IsSound (s : Store) : Type 0 where
  pub rows : All (IsSoundRow s) s.interactions
  pub apart : Apart s.interactions

Apart-append :
    (r : Rec) (rows : List Rec) → any (clashes r) rows ≡ false → Apart rows → Apart (rows ++ r ∷ [])
Apart-append r [] h a = (tt, tt)
Apart-append r (q ∷ rows) h a = (
  All-append (λ x. clashes x q ≡ false) rows (r ∷ []) a.0 (ground arith, tt),
  Apart-append r rows (ground arith) a.1,
)

-- An update that keeps what the unique indexes read keeps the rows apart.
module _ (q : Rec → Bool) (f : Rec → Rec) (left : (a b : Rec) → clashes (f a) b ≡ clashes a b)
    (right : (a b : Rec) → clashes a (f b) ≡ clashes a b) where
  Apart-update_where : (rows : List Rec) → Apart rows → Apart (update_where q f rows)
  Apart-update_where [] a = tt
  Apart-update_where (r ∷ rows) a = (head (q r), Apart-update_where rows a.1)
    where
      others :
          (x : Rec)
          → All (λ y. clashes y x ≡ false) rows
          → All (λ y. clashes y x ≡ false) (update_where q f rows)
      others x h = All-update_where (λ y. clashes y x ≡ false) q f (λ y e. left y x ∙ e) rows h

      head :
          (b : Bool) → All (λ y. clashes y (if b then f r else r) ≡ false) (update_where q f rows)
      head true = others (f r) (
          All-map (λ y. clashes y r ≡ false) (λ y. clashes y (f r) ≡ false) (λ y e. right y r ∙ e)
            rows a.0)
      head false = others r a.0

create-IsSound :
    (tenant : ℕ) (input : CreateInput) (s t : Store) (r : Rec)
    → Creates tenant input s r t
    → IsSound s
    → IsSound t
unfolding is_terminal owns_customer
create-IsSound tenant input s t r c h = record {
  rows = subst (All (IsSoundRow t)) (sym c.rows) (
      All-append (IsSoundRow t) s.interactions (r ∷ [])
        (All-map (IsSoundRow s) (IsSoundRow t)
          (λ q k. record {
            housed = c.homes _ _ _ k.housed;
            owned = rw c.people k.owned;
            timed = k.timed;
          })
          s.interactions h.rows)
        (new, tt));
  apart = rw c.rows (Apart-append r s.interactions c.distinct h.apart);
}
  where
    new : IsSoundRow t r
    new = record {
      housed = rw (c.owner.0, c.owner.1) c.home;
      owned = rw (c.owner.0, c.owner.1, c.people) c.owned;
      timed = ground (arith, c.unended, c.pends);
    }

pub move-IsSound :
    (tenant id : ℕ) (to : Status) (reason : String) (time : ℕ) (e : Envelope) (s : Store)
    → IsSound s
    → IsSound (moved tenant id to reason time e s)
unfolding moved move_row owns_customer clashes
move-IsSound tenant id to reason time e s h = record {
  rows =
      All-update_where (IsSoundRow (moved tenant id to reason time e s)) (is_row tenant id)
        (move_row to reason time)
        (λ r k. record { housed = k.housed; owned = k.owned; timed = ground arith }) s.interactions
        (All-map (IsSoundRow s) (IsSoundRow (moved tenant id to reason time e s))
          (λ r k. record { housed = k.housed; owned = k.owned; timed = k.timed }) s.interactions
          h.rows);
  apart =
      Apart-update_where (is_row tenant id) (move_row to reason time) (λ a b. refl) (λ a b. refl)
        s.interactions h.apart;
}

assign-IsSound :
    (tenant id agent queue : ℕ) (s t : Store)
    → Assigns tenant id agent queue s t
    → IsSound s
    → IsSound t
unfolding assign_row owns_customer clashes
assign-IsSound tenant id agent queue s t a h = record {
  rows = subst (All (IsSoundRow t)) (sym a.rows) (
      All-update_where (IsSoundRow t) (is_assignable_row tenant id) (assign_row agent queue)
        (λ r k. record { housed = k.housed; owned = k.owned; timed = k.timed }) s.interactions
        (All-map (IsSoundRow s) (IsSoundRow t)
          (λ r k. record {
            housed = rw a.talks k.housed;
            owned = rw a.people k.owned;
            timed = k.timed;
          })
          s.interactions h.rows));
  apart = rw a.rows (
      Apart-update_where (is_assignable_row tenant id) (assign_row agent queue) (λ a b. refl)
        (λ a b. refl) s.interactions h.apart);
}

-- A call of the service, with its arguments.
pub data Call : Type 0 where
  creates : ℕ → CreateInput → Call
  moves : ℕ → ℕ → Status → String → Call
  assigns : ℕ → ℕ → ℕ → ℕ → Call

module _ (sha : String → String) where
  unfoldable pub perform : Call → World Store → World Store
  perform (creates tenant input) w = (create sha tenant input w).1
  perform (moves tenant id to reason) w = (transition_to tenant id to reason w).1
  perform (assigns tenant id agent queue) w = (assign tenant id agent queue w).1

  unfoldable pub perform_all : List Call → World Store → World Store
  perform_all [] w = w
  perform_all (c ∷ cs) w = perform_all cs (perform c w)

module _ (sha : String → String) where
  pub perform-IsSound : (c : Call) (w : World Store) → IsSound w.db → IsSound (perform sha c w).db
  unfolding perform
  perform-IsSound (creates tenant input) w h =
      Post-world (λ v. IsSound v.db) (create sha tenant input w) (create-Post sha tenant input w)
        (λ r v a. answered r v a) (λ e v same. rw same h)
    where
      answered : (r : Rec) (v : World Store) → Answers sha tenant input w.db r v → IsSound v.db
      answered r v (inl c) = create-IsSound tenant input w.db v.db r c h
      answered r v (inr again) = rw again.same h
  perform-IsSound (moves tenant id to reason) w h =
      Post-world (λ v. IsSound v.db) (transition_to tenant id to reason w)
        (transition_to-Post w tenant id to reason)
        (λ r v (cur, e, m, is_r). rw m.now_is (move-IsSound tenant id to reason w.now e w.db h))
        (λ x v left. elim left [
          | inl same ↦ rw same h
          | inr (cur, e, m, is_x) ↦ rw m.now_is (move-IsSound tenant id to reason w.now e w.db h)
        ])
  perform-IsSound (assigns tenant id agent queue) w h =
      Post-world (λ v. IsSound v.db) (assign tenant id agent queue w)
        (assign-Post tenant id agent queue w)
        (λ r v a. assign-IsSound tenant id agent queue w.db v.db a.0 h)
        (λ x v left. elim left [
          | inl same ↦ rw same h
          | inr a ↦ assign-IsSound tenant id agent queue w.db v.db a h
        ])

  -- Whatever calls are made, whatever statements fail, the tables stay sound.
  pub perform_all-IsSound :
      (cs : List Call) (w : World Store) → IsSound w.db → IsSound (perform_all sha cs w).db
  unfolding perform_all
  perform_all-IsSound [] w h = h
  perform_all-IsSound (c ∷ cs) w h =
      perform_all-IsSound cs (perform sha c w) (perform-IsSound c w h)
