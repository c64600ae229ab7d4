-- ===== src/Realtime.antt =====
-- internal/realtime/hub.go: admission, registration, publication and closing of sockets. Each
-- section under the mutex is one step, so that the steps of several connections interleave. A
-- socket is a number, its send channel is a list of at most 64 events; the read and write pumps
-- are the steps `drained` and `closed`. `upgrading` counts the connections between admit and
-- registration, and `closings` the closed ones: the hub itself does not hold these two.
pub mod Capacity
pub mod Isolation
mod Examples
use orvexa.Base.{
  ◌∷◌, List, Bool, ◌-◌, ℕ, ◌≡◌, true, ◌++◌, String, map, if◌then◌else◌, update_where, ◌==◌, [], ◌+◌,
  ◌<◌, leb, ◌&&◌, ◌||◌, false, str_eq, ltb, length,
}
use orvexa.Events.{Envelope, Datum, ident}
use mathlib.Core.List.{[]}

pub record Client : Type 0 where
  pub socket : ℕ
  pub tenant_id : ℕ
  pub agent_id : ℕ
  pub send : List Envelope

pub record Hub : Type 0 where
  pub max_total : ℕ
  pub clients : List Client
  pub total : ℕ
  pub upgrading : ℕ
  pub closings : ℕ

-- NewHub; a cap that is not positive is 10,000. maxPerPrincipal, which nothing reads, is left out.
unfoldable pub new_hub : ℕ → Hub
new_hub cap = record {
  max_total = if cap == 0 then 10000 else cap;
  clients = [];
  total = 0;
  upgrading = 0;
  closings = 0;
}

unfoldable pub admit : Hub → Bool × Hub
admit h =
    if leb h.max_total h.total
    then (false, h)
    else (true, record h { total = h.total + 1; upgrading = h.upgrading + 1 })

-- release, after an upgrade that failed
unfoldable pub release : Hub → Hub
release h = record h { total = h.total - 1; upgrading = h.upgrading - 1 }

-- The end of ServeHTTP.
unfoldable pub register : ℕ → ℕ → ℕ → Hub → Hub
register socket tenant agent h = record h {
  clients = record { socket = socket; tenant_id = tenant; agent_id = agent; send = [] } ∷ h.clients;
  total = h.total + 1;
  upgrading = h.upgrading - 1;
}

abbrev agent_of : List (String × Datum) → ℕ
agent_of [] = 0
agent_of ((k, ident n) ∷ rest) = if str_eq k "agent_id" then n else agent_of rest
agent_of ((k, _) ∷ rest) = if str_eq k "agent_id" then 0 else agent_of rest

-- targetsAgent
unfoldable pub targets_agent : Envelope → ℕ → Bool
targets_agent e agent =
    agent_of e.payload == agent
    || e.subject == agent
    || str_eq e.topic "queue.updated"
    || str_eq e.topic "webhook.received"

unfoldable pub wants : Envelope → Client → Bool
unfolding targets_agent
wants e c = c.tenant_id == e.tenant_id && (c.agent_id == 0 || targets_agent e c.agent_id)

-- The body of the loop of Publish: a full buffer drops the event.
unfoldable pub offer : Envelope → Client → Client
offer e c = if wants e c && ltb (length c.send) 64 then record c { send = c.send ++ e ∷ [] } else c

unfoldable pub publish : Envelope → Hub → Hub
publish e h = record h { clients = map (offer e) h.clients }

abbrev tail : List Envelope → List Envelope
tail [] = []
tail (e ∷ es) = es

-- The write pump took the oldest event.
unfoldable pub drain : ℕ → Hub → Hub
drain socket h = record h {
  clients = update_where (λ c. c.socket == socket) (λ c. record c { send = tail c.send }) h.clients;
}

-- closeClient, which `once` runs once for each client: `before` and `after` are the others.
unfoldable pub close : List Client → List Client → Hub → Hub
close before after h = record h {
  clients = before ++ after;
  total = h.total - 1;
  closings = h.closings + 1;
}

-- One step of the hub.
pub data Step : Hub → Hub → Type 0 where
  admitted : {h g : Hub} → admit h ≡ (true, g) → Step h g
  released : {h : Hub} → 0 < h.upgrading → Step h (release h)
  registered :
      {h : Hub} (socket tenant agent : ℕ)
      → 0 < h.upgrading
      → Step h (register socket tenant agent h)
  published : {h : Hub} (e : Envelope) → Step h (publish e h)
  drained : {h : Hub} (socket : ℕ) → Step h (drain socket h)
  closed :
      {h : Hub} (before after : List Client) (c : Client)
      → h.clients ≡ before ++ c ∷ after
      → Step h (close before after h)

pub data Run : Hub → Hub → Type 0 where
  stay : {h : Hub} → Run h h
  next : {h g k : Hub} → Step h g → Run g k → Run h k
