-- ===== src/Lib.antt =====
-- A model of the AI Power Gateway, a local gateway that shares large language models among the machines
-- of a group. A member's machine gets a token, sends requests in the OpenAI or the Anthropic protocol,
-- and the gateway of the leader checks the token, the quota and the text, resolves the model name by
-- rules, and forwards the request to one of several backends. A member runs a gateway of its own that
-- finds the leader and may encrypt the link to it.
--
-- The parts, the files that model them, and the source:
--   Quota, Member, Auth, Usage: crates/lan-share/src/quota.rs, member.rs, auth.rs and usage.rs, the
--     services behind the handlers (`QuotaService`, `MemberRegistry`, `AuthService`, `UsageService`).
--     Each is a record of what the source keeps behind its lock, and each method a function to the new
--     record, with the file that it writes.
--   Health: health.rs, `ProviderState::observe` and `HealthMonitor`; what the loop does after a probe
--     is `finish_probe`.
--   Rules: rules.rs, `RuleResolver`; `resolve` gives the candidates of a rule set in order.
--   Policy: policy.rs, `detect`, `extract_request_text` and `LoadPolicy`.
--   Backend, BackendStore: backend.rs and backend_store.rs, the providers, the configured entries
--     with their keys, and their file.
--   Registry: registry.rs, `BackendRegistry`: registration, routing, catalog. It reads the table of
--     Health.
--   Api: api.rs, the state that the handlers share and the handlers `chat_completions` (Api/Chat),
--     `messages` (Api/Messages), `auth_token`, `auth_rename`, `api_strategy_me` and the actions of
--     `api_control` (Api/Control). They call all of the above.
--   Protocol: api.rs, the conversions `anthropic_to_openai` and `openai_to_anthropic`
--     (Protocol/Anthropic) and the streams (Protocol/Stream) that `messages` and `chat_completions`
--     answer with; backend.rs, `assemble_sse_response` (Protocol/Assemble).
--   Link: crates/link-crypto/src/lib.rs (Link/Crypto), the middleware of
--     crates/lan-share/src/link.rs (Link/Leader), and from crates/lan-client/src the list of leaders
--     (Link/Discovery, with the announcement of crates/lan-share/src/broadcast.rs), the gateway of a
--     member (Link/Member), its own usage and identity (Link/Usage). Link/Channel joins the gateway of
--     a member and the middleware of the leader by a network that delivers.
--   Runtime: crates/runtime/src/runtime.rs and module.rs (Runtime/Order for `topo_sort`, Runtime/Boot
--     for the rest), config.rs (Runtime/Config), roles.rs (Runtime/Roles), i18n.rs
--     (Runtime/I18n) and event.rs (Runtime/Event).
--   Punch: crates/punch/src/candidate.rs, error.rs and punch.rs. `punch` runs over a schedule of events
--     (ticks of the timer, datagrams, a failed read), and the deadline comes after the last one.
--   Strategy: crates/lan-client/src/strategy.rs, the summary that a member's machine fetches from
--     `api_strategy_me`, and its check before a request.
--   Prelude, Json, Disk: lists, maps, texts and sorting; `serde_json::Value`; what a file holds.
--
-- Texts are lists of code points, maps are association lists in some order, and theorems hold for every
-- such order. Counters wrap at 2^64 or 2^32 as the release build does. Two loops take fuel: the decimal
-- digits of a `u64`, of which there are at most twenty, and the search of `topo_sort`, which descends
-- at most once into each wanted module and has one unit more than there are wanted modules. Arguments
-- of the model are the clock, random bytes, the environment, the Unicode case tables, the parsers and
-- writers of files and of JSON, the HTTP client, the ciphers, gzip and SHA-256, what a module does to
-- the host, and the call of an upstream; a record `Disk` is what writing leaves in a file, and a theorem
-- that needs the write to succeed says so (`IsReliable`, `IsWorking`).
--
-- Not modelled: the sockets and servers, QUIC and its tunnels, the coordination client, the vault, the desktop
-- and system glue, the rendering of the responses of chat_completions, and the scheduling of the health
-- loop. Handlers run one after another: what the source does between two locks is one step here.
pub mod Prelude
pub mod Disk
pub mod Json
pub mod Quota
pub mod Member
pub mod Auth
pub mod Usage
pub mod Health
pub mod Rules
pub mod Policy
pub mod Backend
pub mod BackendStore
pub mod Registry
pub mod Api
pub mod Strategy
pub mod Runtime
pub mod Link
pub mod Protocol
pub mod Punch
