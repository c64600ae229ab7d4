-- ===== src/Realtime/Capacity.antt =====
-- What the counter of internal/realtime/hub.go counts.
use orvexa.Base.{
  ◌∷◌, List, Bool, ◌≡◌, length, ◌+◌, map, update_where, ◌*◌, arith, refl, ◌==◌, ap, length-append,
  ◌≤◌, ℕ, false, true, ◌∙◌, ◌↔◌, ◌<◌,
}
use orvexa.Realtime.{
  closed, admit, Hub, release, register, publish, drain, close, Step, admitted, released,
  registered, published, offer, drained, Run, new_hub, next, stay,
}
use mathlib.Core.List.{[], tail}

-- Two for every live client, one for every connection that is being upgraded, and one for every
-- connection that was ever closed.
abbrev pub Counts : Hub → Type 0
Counts h = h.total ≡ h.upgrading + 2 * length h.clients + h.closings

length-map : {A B : Type 0} (f : A → B) (xs : List A) → length (map f xs) ≡ length xs
length-map f [] = refl
length-map f (x ∷ xs) = omega (arith, length-map f xs)

length-update_where :
    {A : Type 0} (q : A → Bool) (f : A → A) (xs : List A) → length (update_where q f xs) ≡ length xs
length-update_where q f [] = refl
length-update_where q f (x ∷ xs) = omega (arith, length-update_where q f xs)

step-Counts : (h g : Hub) → Step h g → Counts h → Counts g
unfolding admit release register publish drain close
step-Counts h g (admitted e) c = ground (arith, c, e)
step-Counts h g (released some_left) c = omega (arith, c, some_left)
step-Counts h g (registered socket tenant agent some_left) c = omega (arith, c, some_left)
step-Counts h g (published e) c = omega (arith, c, length-map (offer e) h.clients)
step-Counts h g (drained socket) c = omega (
  arith,
  c,
  length-update_where (λ c. c.socket == socket) (λ c. record c { send = tail c.send }) h.clients,
)
step-Counts h g (closed before after x e) c =
    omega (arith, c, ap length e, length-append before (x ∷ after), length-append before after)

Run-Counts : {h g : Hub} → Run h g → Counts h → Counts g
Run-Counts stay c = c
Run-Counts (next {h} {g} s r) c = Run-Counts r (step-Counts h g s c)

-- Whatever connections come and go, the hub admits one more exactly when the connections that are
-- being upgraded, twice the live clients, and all connections ever closed are together fewer than
-- the cap.
pub admit_iff :
    (cap : ℕ) (h : Hub)
    → Run (new_hub cap) h
    → ((admit h).0 ≡ true) ↔ (h.upgrading + 2 * length h.clients + h.closings < h.max_total)
unfolding admit new_hub
admit_iff cap h r =
    let c = Run-Counts r (omega arith) in ((λ e. ground (arith, c, e)), λ lt. ground (arith, c, lt))

step-closings : (h g : Hub) → Step h g → (h.closings ≤ g.closings) × (g.max_total ≡ h.max_total)
unfolding admit release register publish drain close
step-closings h g (admitted e) = ground (arith, e)
step-closings h g (released some_left) = (omega arith, refl)
step-closings h g (registered socket tenant agent some_left) = (omega arith, refl)
step-closings h g (published e) = (omega arith, refl)
step-closings h g (drained socket) = (omega arith, refl)
step-closings h g (closed before after x e) = (omega arith, refl)

Run-closings : {h g : Hub} → Run h g → (h.closings ≤ g.closings) × (g.max_total ≡ h.max_total)
Run-closings stay = (omega arith, refl)
Run-closings (next {h} {g} s r) =
    let a = step-closings h g s in let b = Run-closings r in (omega (arith, a.0, b.0), b.1 ∙ a.1)

-- Once as many connections as the cap were closed, the hub refuses every later connection,
-- however few clients are live.
pub admit-exhausted :
    (cap : ℕ) (h g : Hub)
    → Run (new_hub cap) h
    → h.max_total ≤ h.closings
    → Run h g
    → (admit g).0 ≡ false
unfolding admit new_hub
admit-exhausted cap h g r full later =
    let c = Run-Counts later (Run-Counts r (omega arith)) in
    let m = Run-closings later in ground (arith, c, full, m.0, m.1)
