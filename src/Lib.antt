-- ===== src/Lib.antt =====
-- Orvexa is a multi-tenant contact-centre backend: HTTP services write domain rows to PostgreSQL
-- together with an event in an outbox table, a dispatcher publishes the events, and workers, the
-- realtime hub and the provider adapters consume them. The parts modelled here are those that keep
-- state and decide; each stands in files named for it.
--
-- Base         names of the library, Boolean tests, lists measured by native numbers
-- Errors       pkg/errors/errors.go: kinds, codes, HTTP statuses; messages are left out
-- Database     what a service sees of PostgreSQL through pgx: a committed store, the view of the
--              open transaction, and an environment that decides of every statement whether it
--              fails; ids come from a counter and the clock stands still within a call; INSERTs under
--              a unique key (Inserting), queries whose iteration can break off without an error
--              (Querying), and rules for all of these (Rules, Stays)
-- Events       pkg/events and internal/platform/outbox/writer.go: envelopes, the topic registry,
--              the insert that shares the transaction of the state change
-- Interactions internal/interactions: the lifecycle (State), the tables (Store), the request
--              (Input), Get, Transition and Assign (Service), Create (Create), and the invariant of
--              the tables (Soundness)
-- Workflows    internal/workflows/engine.go: the tables (Types), start and advance (Engine), Tick,
--              Cancel and Get (Tick); what advance and Tick leave (Advance, Progress) and what the
--              starts commit (Starting)
-- Outbox       internal/platform/outbox/dispatcher.go: the claim, the publication, the
--              acknowledgement and the release of events, with the publisher of cmd/worker/main.go;
--              delivery (Delivery, Ticks), a Tick in which nothing fails (Draining)
--              and the rows of a stopped worker (Abandoned)
-- Tools        internal/tools/gateway.go: the gate chain (Tools), the argument schemas (Arguments),
--              the sliding windows (Windows), what a call does (Gates) and the rate (Rate, Limit)
-- Realtime     internal/realtime/hub.go: the hub's steps (Realtime), its counter (Capacity) and what
--              reaches a client (Isolation)
-- Comms        internal/comms: the interface to the interactions and its implementation (Core),
--              provider_event.go (Processor), consumer.go (Consumer, Draining)
-- Cases        internal/cases/service.go: the tables (Store), the operations (Service), and what they
--              commit (Moving, Opening with Numbering, Linking)
-- Telephony    internal/telephony/service.go: PlaceCall and ApplyAction (Telephony), what they commit
--              (Actions, Placing)
-- Messaging    internal/messaging: ValidateMessage and Send (Messaging), what Send promises (Sending)
-- Routing      internal/routing/service.go: Score and Decide (Routing), Route and the presence of agents
--              (Service); the order and the skills (Ranking, Skills), the choice (Best), what the score
--              rewards (Merits), what Route commits (Recording) and whom it assigns (Agents)
-- Bytes, Strconv  texts as bytes, and strconv
-- Floats       float64 from 0 up, in units of 2^-1074, with the rounding of each operation,
--              which keeps the order (Order)
-- Pagination   pkg/pagination/pagination.go, the window of the List functions and pageFrom of
--              internal/httpserver/handlers.go (Pagination), encoding/base64 (Base64), cursors (Cursor)
--              and a client that follows them (Walk)
-- Freeswitch   internal/telephony/adapters/freeswitch/frame.go: ReadFrame (Freeswitch), ParseEvent and
--              the writers (Printing); lines and headers (Lines), events (Events), frames (Frames) and
--              what a peer can make the reader hold (Bounds)
-- Hex          encoding/hex
-- Webhooks     internal/webhooks: the gateway and its registry (Webhooks), what a delivery does
--              (Ledger), sequences of calls (Replays), and the verifiers of WhatsApp Cloud (Meta),
--              of Africa's Talking (Peer) and of Twilio (Form, Tokens, Order)
-- Customers    internal/customers/service.go: NormalizeIdentifier (Identifiers, Normal), the operations
--              (Service), what Create commits (Rows, Creating) and what Resolve finds (Finding,
--              Resolving)
-- Agents       internal/agents/service.go (Creating) and internal/queues/service.go (Queues)
-- Conversations  internal/conversations/service.go: Close, Assign and Get, what Close commits (Closing)
--              and what stays (Staying)
-- Identity     internal/identity/roles.go: the catalogue (Catalogue) and the claims (Claims)
--
-- Ids are numbers and 0 is the empty string; other texts are native strings; times are numbers. A
-- NULL text is the empty string. The hashes, HMAC, net/netip, base64.StdEncoding, the rune tables
-- of unicode.ToLower, the collation of the database, the order in which an UPDATE returns its rows
-- and that among rows of equal times are parameters. Every body and header of a
-- webhook is a list of bytes, every identifier of a customer a list of code points. One call runs
-- at a time: row locks (FOR UPDATE, FOR SHARE) and isolation between calls are not modelled. Loops
-- run over lists, so no fuel is needed but in ParseEvent, whose rounds are bounded by the bytes of
-- the body, in Itoa, whose rounds are bounded by the number, and in the search for the gap between
-- two floats, which halves its number in each round and has that number as fuel.
--
-- Not modelled: the network clients of providers, NATS, Redis, ClickHouse and OpenSearch, the HTTP
-- layer, the executables, configuration, logging, and the cryptography of tokens.
pub mod Base
pub mod Errors
pub mod Database
pub mod Events
pub mod Agents
pub mod Bytes
pub mod Cases
pub mod Comms
pub mod Conversations
pub mod Customers
pub mod Floats
pub mod Freeswitch
pub mod Hex
pub mod Identity
pub mod Interactions
pub mod Messaging
pub mod Outbox
pub mod Pagination
pub mod Realtime
pub mod Routing
pub mod Strconv
pub mod Telephony
pub mod Tools
pub mod Webhooks
pub mod Workflows
