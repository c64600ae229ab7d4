-- ===== src/Interactions/Create/Duplicates.antt =====
-- Service.Create on a duplicate delivery: the row that is returned is that of the first delivery.
use orvexa.Interactions.Create.{
  finish_create, find_by_provider_ref, get_delivery, or_duplicate, is_delivery,
}
use orvexa.Interactions.Service.Steps.{get-Post}
use orvexa.Base.{
  ℕ, String, Option, ◌≡◌, ◌≢◌, find, some, Bool-cases, str_eq, inl, inr, refl, false, arith, eq_iff,
}
use orvexa.Database.{World}
use orvexa.Interactions.Store.{Store, Rec, is_row}
use orvexa.Database.Rules.{Post, pure-Post, bind-Post, read-Post, counted, raise-Post, Post-map}
use mathlib.Core.Option.{none}
use orvexa.Database.Outcomes.{try-Post}

-- The row of an earlier delivery was returned, and nothing was written.
pub record Replays (tenant : ℕ) (provider ref : String) (before : Store) (r : Rec) (after : Store)
    : Type 0 where
  pub same : after ≡ before
  pub named : ref ≢ ""
  pub first : Rec
  pub delivered : find (is_delivery tenant provider ref) before.interactions ≡ some first
  pub there : find (is_row tenant first.id) before.interactions ≡ some r

module _ (tenant : ℕ) (provider ref : String) where
  abbrev Finds : World Store → Option Rec → World Store → Type 0
  Finds w o w' =
      (w'.db ≡ w.db) × ((r : Rec) → o ≡ some r → Replays tenant provider ref w.db r w'.db)

  get_delivery-Post :
      (row : Option (Option Rec)) (w : World Store)
      → ref ≢ ""
      → ((q : Rec)
          → row ≡ some (some q)
          → find (is_delivery tenant provider ref) w.db.interactions ≡ some q)
      → Post (Finds w) (λ e w'. w'.db ≡ w.db) (get_delivery tenant row w)
  unfolding get_delivery
  get_delivery-Post none w n h = pure-Post _ _ (refl, λ r e. cc)
  get_delivery-Post (some none) w n h = pure-Post _ _ (refl, λ r e. cc)
  get_delivery-Post (some (some q)) w n h = try-Post _ w (
      get-Post tenant q.id w (refl, λ r e. cc) (λ _. (refl, λ r e. cc))
        λ r here. (
          refl,
          λ r' e. record {
            same = refl;
            named = n;
            first = q;
            delivered = h q refl;
            there = cc (here, e);
          },
        ))

  find_by_provider_ref-Post :
      (w : World Store)
      → Post (Finds w) (λ e w'. w'.db ≡ w.db) (find_by_provider_ref tenant provider ref w)
  unfolding find_by_provider_ref
  find_by_provider_ref-Post w = elim (Bool-cases (str_eq ref "")) [
    | inl blank ↦ rw blank (pure-Post _ _ (refl, λ r e. cc))
    | inr set ↦
        let named : ref ≢ "" = λ p. ground (arith, eq_iff ref "") in
        rw set (
          bind-Post _ _ w (
            try-Post _ w (
              read-Post _ _ w (get_delivery-Post none (counted w) named (λ q e. cc))
                (get_delivery-Post (some _) (counted w) named (λ q e. cc)))))
  ]

  or_duplicate-Post :
      (o : Option Rec) (w0 w : World Store)
      → Finds w0 o w
      → Post
          (λ r w'. Replays tenant provider ref w0.db r w'.db)
          (λ e w'. w'.db ≡ w0.db)
          (or_duplicate o w)
  unfolding or_duplicate
  or_duplicate-Post none w0 w h = raise-Post _ _ h.0
  or_duplicate-Post (some r) w0 w h = pure-Post _ _ (h.1 r refl)

pub finish_again-Post :
    (tenant : ℕ) (r : Rec) (w : World Store)
    → Post
        (λ q w'. Replays tenant r.provider r.provider_ref w.db q w'.db)
        (λ e w'. w'.db ≡ w.db)
        (finish_create tenant r false w)
unfolding finish_create
finish_again-Post tenant r w = bind-Post _ _ w (
    Post-map (λ o w' h. or_duplicate-Post tenant r.provider r.provider_ref o w w' h) (λ e w' h. h)
      (find_by_provider_ref-Post tenant r.provider r.provider_ref w))
