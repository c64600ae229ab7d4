-- ===== src/Interactions/Service/Assignment.antt =====
-- Service.Assign: only pending and active rows of the tenant change, and only their assignment.
use orvexa.Interactions.Service.{
  assign, assign_row, is_assignable_row, update_assignable, refuse_assign, emit, emit_envelope,
  emit_tx,
}
use orvexa.Interactions.Store.{Store, put_event, Rec, is_row}
use orvexa.Base.{
  ℕ, ◌≡◌, update_where, ◌⊎◌, ◌++◌, ◌∷◌, [], inl, inr, refl, Option, Bool, String, List, find, any,
  some, true,
}
use orvexa.Events.{Envelope, Datum}
use orvexa.Database.{World, Db, ◌>>=◌}
use orvexa.Database.Rules.{
  Post, begin_then, guard_then, pure-Post, attempt_ok_then, bind-Post, pure_then, Post-map,
  raise-Post,
}
use orvexa.Errors.{Error}
use orvexa.Events.Rules.{insert_some_then, new_envelope_then}
use mathlib.Core.Option.{none}
use orvexa.Interactions.Service.Steps.{get-Post}
use mathlib.Core.Bool.{false}
use orvexa.Database.Outcomes.{try-Post, commit-Post}

-- The committed store after an assignment: at most one event more, and the rows updated.
pub record Assigns (tenant id agent queue : ℕ) (before after : Store) : Type 0 where
  pub rows :
      after.interactions
      ≡ update_where (is_assignable_row tenant id) (assign_row agent queue) before.interactions
  pub people : after.customers ≡ before.customers
  pub talks : after.conversations ≡ before.conversations
  pub outbox :
      (after.outbox ≡ before.outbox) ⊎ ((e : Envelope) × (after.outbox ≡ before.outbox ++ e ∷ []))

abbrev Emits : Store → Store → Type 0
Emits s t = (t ≡ s) ⊎ ((e : Envelope) × (t ≡ put_event e s))

emit_tx-Post :
    (e : Envelope) (w : World Store)
    → Post (λ _ w'. Emits w.db w'.db) (λ x w'. Emits w.db w'.db) (emit_tx e w)
unfolding emit_tx
emit_tx-Post e w =
    begin_then _ _ w (inl refl)
      (insert_some_then put_event e _ _ (inl refl) (commit-Post _ _ (inl refl) (inr (e, refl))))

emit_envelope-Post :
    (env : Option Envelope) (w : World Store)
    → Post (λ _ w'. Emits w.db w'.db) (λ x w'. Emits w.db w'.db) (emit_envelope env w)
unfolding emit_envelope
emit_envelope-Post none w = pure-Post _ _ (inl refl)
emit_envelope-Post (some e) w = bind-Post _ _ w (
    try-Post _ w
      (Post-map (λ _ w' h. pure-Post _ _ h) (λ x w' h. pure-Post _ _ h) (emit_tx-Post e w)))

emit-Post :
    (topic : String) (subject tenant : ℕ) (payload : List (String × Datum)) (w : World Store)
    → Post
        (λ _ w'. Emits w.db w'.db)
        (λ x w'. Emits w.db w'.db)
        (emit topic subject tenant payload w)
unfolding emit
emit-Post topic subject tenant payload w =
    new_envelope_then _ _ _ _ _ _ λ env said. emit_envelope-Post env _

module _ (tenant id agent queue : ℕ) where
  updated : Store → Store
  updated s = record s {
    interactions =
        update_where (is_assignable_row tenant id) (assign_row agent queue) s.interactions;
  }

  updated-Assigns : (s t : Store) → Emits (updated s) t → Assigns tenant id agent queue s t
  unfolding updated
  updated-Assigns s t (inl e) =
      rw e (record { rows = refl; people = refl; talks = refl; outbox = inl refl })
  updated-Assigns s t (inr (x, e)) =
      rw e (record { rows = refl; people = refl; talks = refl; outbox = inr (x, refl) })

  -- What an error may leave behind.
  abbrev pub Leaves : Store → Error → World Store → Type 0
  Leaves s x w' = (w'.db ≡ s) ⊎ Assigns tenant id agent queue s w'.db

  abbrev pub Returns : Store → Rec → World Store → Type 0
  Returns s r w' =
      Assigns tenant id agent queue s w'.db × (find (is_row tenant id) w'.db.interactions ≡ some r)

  refuse-Post :
      (s : Store) (b : Bool) (f : Unit {0} → Db Store Rec) (w : World Store)
      → w.db ≡ updated s
      → (b ≡ true → Post (Returns s) (Leaves s) (f tt w))
      → Post (Returns s) (Leaves s) ((refuse_assign tenant id b >>= f) w)
  unfolding refuse_assign
  refuse-Post s true f w same k = pure_then _ _ _ (k refl)
  refuse-Post s false f w same k =
      let kept = updated-Assigns s w.db (inl same) in
      bind-Post _ _ w (
        bind-Post _ _ w
          (get-Post tenant id w (inr kept) (λ _. inr kept) λ r here. raise-Post _ _ (inr kept)))

  -- A returned interaction is the row found after the update; an error leaves the store as it was
  -- or with the update and at most one event.
  pub assign-Post :
      (w : World Store) → Post (Returns w.db) (Leaves w.db) (assign tenant id agent queue w)
  unfolding assign update_assignable updated
  assign-Post w = guard_then _ _ _ _ (inl refl) λ _.
      attempt_ok_then _ (λ v. any (is_assignable_row tenant id) v.db.interactions)
        (λ v. record v { db = updated v.db }) _ _ (inl refl)
        (refuse-Post w.db _ _ _ refl (λ _. bind-Post _ _ _ (
          Post-map
            (λ _ w' h.
              get-Post tenant id w' (inr (updated-Assigns w.db _ h))
                (λ _. inr (updated-Assigns w.db _ h)) λ r here. (updated-Assigns w.db _ h, here))
            (λ x w' h. inr (updated-Assigns w.db _ h)) (emit-Post _ _ _ _ _))))
