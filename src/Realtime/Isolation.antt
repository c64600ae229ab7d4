-- ===== src/Realtime/Isolation.antt =====
-- What internal/realtime/hub.go may put into a client's buffer.
use orvexa.Base.{
  ◌∷◌, List, ℕ, All, Bool-cases, ◌≡◌, inl, refl, map, ◌++◌, true, length, arith, ltb, ◌≤◌,
  All-append, [], length-append, inr, All-update_where, ◌==◌, subst, leb,
}
use orvexa.Realtime.{
  closed, admit, Client, wants, offer, new_hub, release, tail, Hub, register, Run, publish, drain,
  next, stay, close, Step, admitted, released, registered, published, drained,
}
use orvexa.Events.{Envelope}
use mathlib.Core.List.{[]}

-- Every buffered event is of the client's tenant and concerns its agent, and the buffer is bounded.
pub record IsSealed (c : Client) : Type 0 where
  pub within : All (λ e. (e.tenant_id ≡ c.tenant_id) × (wants e c ≡ true)) c.send
  pub bounded : length c.send ≤ 64

tenant_eq : (e : Envelope) (c : Client) → wants e c ≡ true → e.tenant_id ≡ c.tenant_id
unfolding wants
tenant_eq e c h = ground (arith, h)

wants-send :
    (e : Envelope) (c : Client) (es : List Envelope) → wants e (record c { send = es }) ≡ wants e c
unfolding wants
wants-send e c es = refl

offer-IsSealed : (e : Envelope) (c : Client) → IsSealed c → IsSealed (offer e c)
unfolding offer wants
offer-IsSealed e c s = elim (Bool-cases (wants e c)) [
  | inl hit ↦ elim (Bool-cases (ltb (length c.send) 64)) [
    | inl free ↦
        rw (hit, free)
          (record {
            within = All-append _ c.send (e ∷ []) s.within ((tenant_eq e c hit, hit), tt);
            bounded = ground (arith, free, length-append c.send (e ∷ []));
          })
    | inr busy ↦ rw (hit, busy) s
  ]
  | inr miss ↦ rw miss s
]

tail-IsSealed : (c : Client) → IsSealed c → IsSealed (record c { send = tail c.send })
unfolding wants
tail-IsSealed c s = record { within = rest c.send s.within; bounded = shorter c.send s.bounded }
  where
    rest :
        (es : List Envelope)
        → All (λ e. (e.tenant_id ≡ c.tenant_id) × (wants e c ≡ true)) es
        → All (λ e. (e.tenant_id ≡ c.tenant_id) × (wants e c ≡ true)) (tail es)
    rest [] h = tt
    rest (e ∷ es) h = h.1

    shorter : (es : List Envelope) → length es ≤ 64 → length (tail es) ≤ 64
    shorter [] h = omega arith
    shorter (e ∷ es) h = omega (arith, h)

All-offer : (e : Envelope) (cs : List Client) → All IsSealed cs → All IsSealed (map (offer e) cs)
All-offer e [] h = tt
All-offer e (c ∷ cs) h = (offer-IsSealed e c h.0, All-offer e cs h.1)

All-without :
    (before after : List Client) (c : Client)
    → All IsSealed (before ++ c ∷ after)
    → All IsSealed (before ++ after)
All-without [] after c h = h.1
All-without (b ∷ before) after c h = (h.0, All-without before after c h.1)

admit-clients : (h g : Hub) → admit h ≡ (true, g) → h.clients ≡ g.clients
unfolding admit
admit-clients h g e = elim (Bool-cases (leb h.max_total h.total)) [
  | inl busy ↦ cc (busy, e)
  | inr free ↦ cc (free, e)
]

step-IsSealed : (h g : Hub) → Step h g → All IsSealed h.clients → All IsSealed g.clients
unfolding admit release register publish drain close wants
step-IsSealed h g (admitted e) s = subst (All IsSealed) (admit-clients h g e) s
step-IsSealed h g (released some_left) s = s
step-IsSealed h g (registered socket tenant agent some_left) s =
    (record { within = tt; bounded = omega arith }, s)
step-IsSealed h g (published e) s = All-offer e h.clients s
step-IsSealed h g (drained socket) s =
    All-update_where IsSealed (λ c. c.socket == socket) (λ c. record c { send = tail c.send })
      tail-IsSealed h.clients s
step-IsSealed h g (closed before after x e) s =
    All-without before after x (subst (All IsSealed) e s)

-- In every reachable hub, each client's buffer holds only events of its own tenant that concern
-- its agent, and at most 64 of them.
pub Run-IsSealed : (cap : ℕ) (h : Hub) → Run (new_hub cap) h → All IsSealed h.clients
unfolding new_hub
Run-IsSealed cap h r = go r tt
  where
    go : {h g : Hub} → Run h g → All IsSealed h.clients → All IsSealed g.clients
    go stay s = s
    go (next {h} {g} st r) s = go r (step-IsSealed h g st s)
