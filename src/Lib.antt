-- ===== src/Lib.antt =====
-- A verification library of NextPanel, a panel that deploys proxy nodes on servers and hands out
-- subscriptions to them. It models parts of the panel's server, apps/server/src, which is written in
-- TypeScript; every definition names the function that it follows.
--
-- The parts, how they interact, and the files:
-- - Auth: accounts and sessions. auth/auth.service.ts (login with its lock, register, logout,
--   changePassword, revokeOtherSessions, wxWorkLogin, wxWorkBind, wxWorkUnbind), auth/jwt.strategy.ts
--   (validate), auth/oauth-state.service.ts, invite-codes/invite-codes.service.ts,
--   users/users.service.ts and common/guards/roles.guard.ts. Auth.Model is the state that they share:
--   the tables of users, invite codes, revoked tokens and OAuth states. Login issues the tokens that
--   validate checks against the same rows; register spends the codes that the invite service makes.
-- - Uri: addresses and share links. Uri.Numbers is `Number(text)`, Uri.HostPort the split of
--   `host:port`, Uri.Socks nodes/socks-uri.ts (parseSocksUri, parseStoredSocksExit), Uri.Xhttp
--   nodes/protocols/xhttp.ts, and Uri.External, Uri.Vmess, Uri.Links and Uri.Compact are
--   external-nodes/uri-parser.ts. The importer uses the SOCKS5 parser for its own scheme.
-- - Cloudflare: the mapping of a hostname to its origin port. Cloudflare.Route is
--   cloudflare/cf-origin.util.ts; Cloudflare.Zone, Rules, Dns, Api and Checks are
--   cloudflare/cf-origin-api.ts (request; verifyRule, verifyIsolation; ensureDns, removeDns; ensure,
--   ensureTls, verify, verifyTls, remove; prerequisites, checkTls, preflight).
-- - Probe: nodes/socks5-udp-probe.ts, its SocketReader (Probe.Reader) and the dialog with the server
--   (Probe.Dialog).
-- - Locks: common/database/advisory-lock.ts (withPostgresAdvisoryLocks), with the calls on the
--   connection and of the work in their order.
-- - Health: ip-check/route-check/provider-health.manager.ts (checkInbound, healthSnapshot).
-- - Nodes: the proxy nodes. Nodes.Shape, Ports, World, Dns, Create, FromPreset, Chain, Update,
--   Replace and Manage are nodes/nodes.service.ts (create, createFromPreset, createChainNode, update
--   with its deployment and its way back, rename, toggle, remove, findAll, findOne, getCredentials);
--   Nodes.Presets is nodes/protocols/presets.ts, Nodes.Credentials its generators, and Nodes.Identity
--   nodes/protocols/cf-xhttp.ts and ensureCredentials. Nodes.World is the state, the tables Node and
--   Server, with the interface of the services that are called; a chain that leaves by SOCKS5 is read
--   by the parser of Uri.Socks. Nodes.Leads says what a call does to the table Node, and Nodes.Sound
--   follows the ports through every operation.
-- - Usage: the counters that the nodes report. Usage is usage/usage.util.ts (counterDelta,
--   usageStatus), and Usage.Ingest `ingest` of usage/usage.service.ts, over the tables of usage and
--   the list of the subscriptions that are observed.
-- - Agent: agent/network-rate.ts (NetworkRateTracker). Agent.Release, Pending, Rows and Heartbeat are
--   agent/agent.service.ts (getLatestVersion, handleHeartbeat): the release that is offered, the update
--   that a server waits for, and the tables that a heartbeat writes.
-- - Export: what is handed out of a node. Export and Export.ShareUri are subscriptions/uri-builder.ts
--   (toClashNet, formatUriHost, addTransportParams, addTlsParams, buildShareUri), and Export.Content is
--   generateContent of subscriptions/subscriptions.service.ts; Export.Imported says what an importer
--   should see, and Export.RoundTrip runs the parsers of Uri on the links.
-- - Prelude: what they share. Texts are lists of UTF-16 code units, as strings of JavaScript are;
--   Prelude.Exec holds methods that change a state and may throw, Prelude.Results and Prelude.Options
--   chains that throw or give nothing and keep no state. The modules named Tests hold the theorems at
--   concrete inputs.
--
-- How state is read: a table is the list of its rows, and a query of Prisma is the operation on that
-- list which its documentation gives. A method of a service is a function from the tables to its
-- result or its error and to the tables that it leaves; a transaction that throws leaves them as they
-- were. Where two requests can overlap between a read and a write, the two are separate definitions
-- (check_register and commit_register, guarded_update). Times are milliseconds in natural numbers.
--
-- What is a parameter: the clock and the random values, as arguments; bcrypt, the signing of tokens
-- and SHA-256, as functions; PostgreSQL's answers to the lock queries, as the fields of a record;
-- the deployments, the remote resources, Cloudflare's settings and records, the locks and the cipher
-- of the node service, as the fields of the record Nodes.World.Outside, each of which acts on a state
-- of its own that may hold all that went before; GitHub and the services that a heartbeat calls, as
-- the fields of Agent.Rows.Surroundings; in Cloudflare's own part, Cloudflare, as a function from
-- all the calls sent so far to the answer of the next one, so that it may answer anything at any
-- time; the SOCKS5 server, as the bytes that it sends before a read times out and its answer to a
-- datagram; and the decoders of the runtime (decodeURIComponent, Base64, UTF-8, JSON, URL,
-- URLSearchParams, isIP, domainToASCII), as the fields of the record Uri.Platform.Host, with the
-- printers that undo them in Export.ShareUri.Printer. No theorem supposes anything of these but what
-- its own hypotheses say; Nodes.Sound.Changes.Deploys names what is taken for granted of the
-- deployments, Export.Imported.Prints of the printers, and Nodes.Sound.Undone.IsReliable of the
-- writes and the locks where a creation is undone.
--
-- Loops are structural recursion. The search for a free user name runs on fuel, one more than there
-- are users, which is proved to be enough; the digits of a numeral run on fuel n + 1 for n, and those
-- of a group of an IPv6 address on four, as two bytes have no more in base sixteen. Subtraction is
-- guarded where it could go below zero, or stops there, as the source does by `Math.max`.
-- `Number(text)` is read exactly, with no rounding to a double.
--
-- What is not modelled: the deployment of nodes over SSH (nodes/node-deploy.service.ts), the server
-- and subscription services, the configurations for sing-box and Clash, the scheduling of probes,
-- the provisioning of usage accounting, the notes of a release, certificates, notifications,
-- controllers and validation of requests, the web client, the agent in Go and the router plugin.
-- They are mostly calls of other systems, or text that is pasted together, or wait for the parts
-- that are here.
mod Prelude
pub mod Auth
pub mod Uri
pub mod Cloudflare
pub mod Probe
pub mod Locks
pub mod Health
pub mod Nodes
pub mod Usage
pub mod Agent
pub mod Export
