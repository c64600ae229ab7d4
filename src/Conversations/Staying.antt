-- ===== src/Conversations/Staying.antt =====
-- Sequences of Close and Assign of internal/conversations/service.go.
use orvexa.Base.{
  ℕ, ◌≡◌, String, Bool, true, update_where, ◌⊎◌, inl, ap, refl, false, arith, inr, some, find,
  Bool-cases, subst, any, sym, ◌∙◌, find_test, List,
}
use orvexa.Conversations.{
  Store, Conversation, close, assign, get, is_assignable, unassigned, update_assignment, is_open,
  assign_row, end_row, is_conversation,
}
use orvexa.Conversations.Closing.{Keeps, Closes, get-Post, find-update_elsewhere, close-Post}
use orvexa.Database.Rules.{
  Post, guard_then, attempt_ok_then, Post-world, Post-map, bind-Post, raise-Post,
}
use orvexa.Events.{Envelope}
use orvexa.Database.{World}

one_key :
    (t i tenant id : ℕ) (c : Conversation)
    → is_conversation t i c ≡ true
    → is_conversation tenant id c ≡ true
    → (t ≡ tenant) × (i ≡ id)
one_key t i tenant id c p q = (ground arith, ground arith)

-- A closed row is not the open row of a key.
not_open :
    (tenant id t i : ℕ) (rows : List Conversation) (cur c : Conversation)
    → find (is_conversation tenant id) rows ≡ some cur
    → is_open cur.status ≡ true
    → find (is_conversation t i) rows ≡ some c
    → is_open c.status ≡ false
    → is_conversation tenant id c ≡ false
not_open tenant id t i rows cur c was was_open here out =
    elim (Bool-cases (is_conversation tenant id c)) [
      | inr apart ↦ apart
      | inl same ↦
          let (a, b) = one_key t i tenant id c (find_test (is_conversation t i) rows c here) same in
          let at : find (is_conversation tenant id) rows ≡ some c =
            subst (λ k. find (is_conversation k id) rows ≡ some c) a
              (subst (λ k. find (is_conversation t k) rows ≡ some c) b here) in
          absurd (
            open_and_ended (is_open c.status)
              (subst (λ r. is_open r.status ≡ true) (some_same cur c (sym was ∙ at)) was_open) out)
    ]
  where
    some_same : (a b : Conversation) → some a ≡ some b → a ≡ b
    some_same a b p = cc

    open_and_ended : (b : Bool) → b ≡ true → b ≡ false → ⊥
    open_and_ended b p q = cc

end_row-Keeps :
    (tenant id : ℕ) (w : World Store) (cur : Conversation) (e : Envelope) (s : Store)
    → Closes tenant id w cur e s
    → Keeps w.db s
unfolding end_row
end_row-Keeps tenant id w cur e s done t i c here out = rw done.rows (
    find-update_elsewhere (is_conversation t i) (is_conversation tenant id) (end_row w.now)
      (λ r. refl) w.db.conversations c here
      (not_open tenant id t i w.db.conversations cur c done.was done.was_open here out))

close-Keeps :
    (tenant id : ℕ) (reason : String) (v : World Store) → Keeps v.db (close tenant id reason v).1.db
close-Keeps tenant id reason v =
    Post-world (λ x. Keeps v.db x.db) _ (close-Post tenant id reason v)
      (λ d x (cur, e, done, is_d). end_row-Keeps tenant id v cur e x.db done)
      (λ x u why. failed u why)
  where
    failed :
        (u : World Store)
        → (u.db ≡ v.db) ⊎ ((cur : Conversation) × (e : Envelope) × Closes tenant id v cur e u.db)
        → Keeps v.db u.db
    failed u (inl same) = λ t i c here out. rw same here
    failed u (inr (cur, e, done)) = end_row-Keeps tenant id v cur e u.db done

assign_row-Keeps :
    (tenant id agent queue time : ℕ) (s s' : Store)
    → s'.conversations
      ≡ update_where (is_assignable tenant id) (assign_row agent queue time) s.conversations
    → Keeps s s'
unfolding assign_row
assign_row-Keeps tenant id agent queue time s s' same t i c here out = rw same (
    find-update_elsewhere (is_conversation t i) (is_assignable tenant id)
      (assign_row agent queue time) (λ r. refl) s.conversations c here (ground (arith, out)))

get-Stays :
    (tenant id : ℕ) (w : World Store)
    → Post (λ c v. v.db ≡ w.db) (λ e v. v.db ≡ w.db) (get tenant id w)
get-Stays tenant id w = get-Post tenant id w (λ e. refl) (λ c here. refl)

assign-Post :
    (tenant id agent queue : ℕ) (w : World Store)
    → Post (λ c v. Keeps w.db v.db) (λ e v. Keeps w.db v.db) (assign tenant id agent queue w)
unfolding assign update_assignment unassigned
assign-Post tenant id agent queue w = guard_then _ _ _ _ same λ _.
    attempt_ok_then _ _ _ _ _ same
      (elim (Bool-cases (any (is_assignable tenant id) w.db.conversations)) [
        | inl affected ↦
            rw affected (Post-map (λ c v e. after v e) (λ x v e. after v e) (get-Stays tenant id _))
        | inr none_left ↦ rw none_left (
            bind-Post _ _ _ (
              Post-map (λ c v e. raise-Post _ _ (after v e)) (λ x v e. after v e)
                (get-Stays tenant id _)))
      ])
  where
    same : Keeps w.db w.db
    same t i c here out = here

    after :
        (v : World Store)
        → v.db ≡ record (w.db) {
          conversations =
              update_where
                (is_assignable tenant id)
                (assign_row agent queue w.now)
                w.db.conversations;
        }
        → Keeps w.db v.db
    after v e = assign_row-Keeps tenant id agent queue w.now w.db v.db (ap (λ s. s.conversations) e)

-- The worlds that the calls lead to. Time may pass, and statements may fail.
pub data Runs (w : World Store) : World Store → Type 0 where
  stays : Runs w w
  closes :
      {v : World Store} (tenant id : ℕ) (reason : String)
      → Runs w v
      → Runs w (close tenant id reason v).1
  assigns :
      {v : World Store} (tenant id agent queue : ℕ)
      → Runs w v
      → Runs w (assign tenant id agent queue v).1
  waits :
      {v : World Store} (time : ℕ) (fault : ℕ → Bool)
      → Runs w v
      → Runs w (record v { now = time; fault = fault })

-- Whatever Close and Assign are called with afterwards, and whatever fails, a closed conversation is
-- never opened, closed again or assigned: its row is found as it was.
pub Runs-Keeps : (w v : World Store) → Runs w v → Keeps w.db v.db
Runs-Keeps w v stays t i c here out = here
Runs-Keeps w _ (closes {v} tenant id reason run) t i c here out =
    close-Keeps tenant id reason v t i c (Runs-Keeps w v run t i c here out) out
Runs-Keeps w _ (assigns {v} tenant id agent queue run) t i c here out =
    Post-world (λ x. Keeps v.db x.db) _ (assign-Post tenant id agent queue v) (λ d x k. k)
      (λ e x k. k) t i c (Runs-Keeps w v run t i c here out) out
Runs-Keeps w _ (waits {v} time fault run) t i c here out = Runs-Keeps w v run t i c here out
