-- ===== src/Webhooks/Replays.antt =====
-- Sequences of the calls of internal/webhooks/gateway.go over one ledger.
use orvexa.Base.{
  ◌∷◌, any, Bool, ◌≡◌, ℕ, true, List, update_where, Bool-cases, some, inl, false, ◌∙◌,
  any-update_where, if◌then◌else◌, refl, inr, ◌++◌, any-append, sym, arith,
}
use orvexa.Bytes.{Bytes, same_bytes_refl}
use orvexa.Webhooks.{
  Store, EventRow, Gateway, mark_processed, is_event, Header, ingest_headers, IngestResult,
  is_unprocessed, derive,
}
use orvexa.Database.{World}
use orvexa.Webhooks.Ledger.{
  IsUnique, ingest_headers-Post, Ingested, is_stored, row_of, IsUnique-append,
}
use orvexa.Database.Rules.{Post-world, Post, now_then, Post-ok}
use mathlib.Core.List.{[]}
use orvexa.Errors.{ok}
use orvexa.Database.Outcomes.{try-Post, exec-Post}

-- Rows may be added or marked, and none is lost.
abbrev pub Keeps : Store → Store → Type 0
Keeps s s' =
    (p e : Bytes) → any (is_event p e) s.events ≡ true → any (is_event p e) s'.events ≡ true

IsUnique-update_where :
    (q : EventRow → Bool) (time : ℕ) (rs : List EventRow)
    → IsUnique rs
    → IsUnique (update_where q (λ r. record r { processed_at = some time }) rs)
IsUnique-update_where q time [] h = tt
IsUnique-update_where q time (r ∷ rs) h = (apart (q r), IsUnique-update_where q time rs h.1)
  where
    f : EventRow → EventRow
    f r = record r { processed_at = some time }

    same :
        any
          (is_event r.provider r.event_id)
          (update_where q (λ r. record r { processed_at = some time }) rs)
        ≡ false
    same =
        any-update_where (is_event r.provider r.event_id) q
          (λ r. record r { processed_at = some time }) (λ a. refl) rs
        ∙ h.0

    apart :
        (b : Bool)
        → any
            (is_event
              (if b then (record r { processed_at = some time }) else r).provider
              (if b then (record r { processed_at = some time }) else r).event_id)
            (update_where q (λ r. record r { processed_at = some time }) rs)
          ≡ false
    apart true = same
    apart false = same

pub mark_processed-Post :
    (event_id : Bytes) (w : World Store)
    → IsUnique w.db.events
    → Post
        (λ a v. IsUnique v.db.events × Keeps w.db v.db)
        (λ e v. IsUnique v.db.events × Keeps w.db v.db)
        (mark_processed event_id w)
unfolding mark_processed
mark_processed-Post event_id w h = now_then _ _ (
    try-Post _ _ (
      exec-Post _ _ _ (h, λ p e here. here)
        (
          IsUnique-update_where (is_unprocessed event_id) w.now w.db.events h,
          λ p e here.
              any-update_where (is_event p e) (is_unprocessed event_id) _ (λ a. refl) w.db.events
              ∙ here,
        )))

module _ (lower : Bytes → Bytes) (hmac : Bytes → Bytes → Bytes) (digest : Bytes → Bytes) where
  Ingested-Keeps :
      (g : Gateway) (provider body : Bytes) (header : Header) (s s' : Store) (r : IngestResult)
      → IsUnique s.events
      → Ingested lower hmac digest g provider body header s r s'
      → IsUnique s'.events × Keeps s s'
  Ingested-Keeps g provider body header s s' r h i =
      elim (Bool-cases (is_stored lower hmac digest provider body s)) [
        | inl here ↦
            let same : s'.events ≡ s.events = i.rows ∙ (rw here refl) in
            (rw same h, λ p e k. rw same k)
        | inr free ↦
            let more : s'.events ≡ s.events ++ row_of lower hmac digest provider body ∷ [] =
              i.rows ∙ (rw free refl) in
            (
              rw more (IsUnique-append s.events (row_of lower hmac digest provider body) h free),
              λ p e k.
                  rw
                    (
                      more,
                      any-append (is_event p e) s.events
                          (row_of lower hmac digest provider body ∷ []),
                      k,
                    )
                    refl,
            )
      ]

  -- The worlds that the calls of a gateway lead to. Time may pass, and statements may fail.
  pub data Reaches (w : World Store) : World Store → Type 0 where
    stays : Reaches w w
    ingests :
        {v : World Store} (g : Gateway) (provider body : Bytes) (header : Header)
        → Reaches w v
        → Reaches w (ingest_headers lower hmac digest g provider body header v).1
    marks :
        {v : World Store} (event_id : Bytes) → Reaches w v → Reaches w (mark_processed event_id v).1
    waits :
        {v : World Store} (time next : ℕ) (fault : ℕ → Bool)
        → Reaches w v
        → Reaches w (record v { now = time; next_id = next; fault = fault })

  -- Over any calls, failing ones included, the ledger has one row for each provider and event id,
  -- and loses none.
  pub Reaches-IsUnique :
      (w v : World Store)
      → IsUnique w.db.events
      → Reaches w v
      → IsUnique v.db.events × Keeps w.db v.db
  Reaches-IsUnique w v h stays = (h, λ p e k. k)
  Reaches-IsUnique w _ h (ingests {v} g provider body header run) =
      let (u, kept) = Reaches-IsUnique w v h run in
      Post-world (λ x. IsUnique x.db.events × Keeps w.db x.db) _
        (ingest_headers-Post lower hmac digest g provider body header v)
        (λ r x i.
          let (u', kept') = Ingested-Keeps g provider body header v.db x.db r u i in
          (u', λ p e k. kept' p e (kept p e k)))
        (λ e x same. rw same (u, kept))
  Reaches-IsUnique w _ h (marks {v} event_id run) =
      let (u, kept) = Reaches-IsUnique w v h run in
      Post-world (λ x. IsUnique x.db.events × Keeps w.db x.db) _ (mark_processed-Post event_id v u)
        (λ a x k. (k.0, λ p e here. k.1 p e (kept p e here)))
        (λ e x k. (k.0, λ p e here. k.1 p e (kept p e here)))
  Reaches-IsUnique w _ h (waits {v} time next fault run) = Reaches-IsUnique w v h run

  is_stored-after :
      (g : Gateway) (provider body : Bytes) (header : Header) (s s' : Store) (r : IngestResult)
      → Ingested lower hmac digest g provider body header s r s'
      → is_stored lower hmac digest provider body s' ≡ true
  is_stored-after g provider body header s s' r i =
      elim (Bool-cases (is_stored lower hmac digest provider body s)) [
        | inl here ↦ rw (i.rows, here) here
        | inr free ↦
            rw
              (
                i.rows,
                free,
                any-append (is_event provider (derive lower hmac digest provider body)) s.events
                    (row_of lower hmac digest provider body ∷ []),
                same_bytes_refl provider,
                same_bytes_refl (derive lower hmac digest provider body),
              )
              (ground arith)
      ]

  -- Once a delivery is accepted, whatever calls follow, the same body of the same provider is never
  -- stored again: where it is accepted, under whatever signature, it is answered as a duplicate
  -- with the id of the first answer, and the ledger is as it was.
  pub ingest_headers-again :
      (g g' : Gateway) (provider body : Bytes) (header header' : Header) (w v : World Store)
      (r r' : IngestResult)
      → IsUnique w.db.events
      → (ingest_headers lower hmac digest g provider body header w).0 ≡ ok r
      → Reaches (ingest_headers lower hmac digest g provider body header w).1 v
      → (ingest_headers lower hmac digest g' provider body header' v).0 ≡ ok r'
      → (r'.is_duplicate ≡ true)
        × (r'.event_id ≡ r.event_id)
        × ((ingest_headers lower hmac digest g' provider body header' v).1.db.events ≡ v.db.events)
  ingest_headers-again g g' provider body header header' w v r r' unique first run second =
      let i = Post-ok r (ingest_headers-Post lower hmac digest g provider body header w) first in
      let i' =
        Post-ok r' (ingest_headers-Post lower hmac digest g' provider body header' v) second in
      let unique' = (Ingested-Keeps g provider body header w.db _ r unique i).0 in
      let here : is_stored lower hmac digest provider body v.db ≡ true =
        (Reaches-IsUnique _ v unique' run).1 provider (derive lower hmac digest provider body)
          (is_stored-after g provider body header w.db _ r i) in
      (i'.is_duplicate ∙ here, i'.event_id ∙ sym i.event_id, i'.rows ∙ (rw here refl))
