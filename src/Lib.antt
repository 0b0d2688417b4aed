-- ===== src/Lib.antt =====
-- HomeNet Hub: a server (server/) that collects metrics from the machines of a house, keeps
-- them in SQLite, and shows them on a page (web/). Machines push their own metrics with a
-- shared token; anybody in the house may look, and one admin, who has a password, may change
-- what is shown.
--
-- The parts modelled, with their files under server/:
-- - NetGuard (net_guard.js): which hosts the server may connect to and which clients count as
--   local. checkPrivateIp is check_private_ip, checkPrivateClient is check_private_client. The
--   regular expressions are quad_of, on the parts between the dots, and strip_prefix.
-- - ClientIp (client_ip.js): the client behind the reverse proxy and the tunnel.
--   resolveClientIp is resolve_client_ip with its loop walk; clientIsPrivate and directLanHit
--   of index.js, which join it with NetGuard, are client_is_private and direct_lan_hit.
-- - Limiter (auth.js, LoginLimiter): two tiers of buckets in one Map; check, fail, succeed and
--   prune carry its methods' names.
-- - Auth (auth.js, store/admin_store.js): the admin row, the gate that createAuth closes over,
--   session tokens (Auth.Session), passwords and first-run setup (Auth.Password), cookies and
--   the Origin header (Auth.Cookies). A change of the password is begin_change, which sets the
--   flag, and end_change, which runs after the key derivation and resets it.
-- - PushBindings (store/push_bindings.js): which machine may push as a target. The table and
--   the throttle of the log are the state; check decides one push.
-- - Counters (collectors/nodes.js): the increase of a counter over its samples, and the
--   stretches of time they cover.
-- - Snapshot (store/snapshot.js): the latest state of each target.
-- - Tsdb (store/sqlite.js): which samples are written, and how buckets become points.
--   Tsdb.Tiers has the tables `metrics` and `metrics_5m` and the transactions _aggChunk,
--   _purgeChunk and _dropChunk with the statements they run; Tsdb.Rollup has the days of
--   retention from the environment, the watermarks, rollup with its phases (drop_phase,
--   agg_phase, purge_phase) and cleanup. record is write_batch, which is told whether its
--   insert commits; restarted is the state of a new process.
-- - ComfyFollow (comfy_follow.js): the port on which a ComfyUI server is probed.
-- - Effective (config/effective.js): the file's configuration merged with what was added in the
--   browser. The schema's checks, the defaults and the etag are the interface Effective.Checks.
-- - Engine (engine.js): which inference engine answers on a node, and the log of all nodes.
-- - Server (index.js, collectors/push.js): the routes that join Auth, Limiter, ClientIp,
--   NetGuard and PushBindings: the guards (requireAdmin is require_admin), Server.Login (login,
--   logout, change of the password), Server.FirstRun (first-run setup) and Server.Push (the
--   reports of the machines). A reply is its status and the headers that are set.
-- - IdleSpin (idle_spin.js): which machines read busy while they serve nothing.
-- - UserStore (store/user_store.js): the targets and cards that were added in the browser. What
--   JSON.parse reads in what JSON.stringify wrote is a parameter.
-- - Vault and CredStore (vault.js, store/cred_store.js): the sealed secrets, their table, and
--   the host keys that are trusted on first use. scrypt, AES-256-GCM and base64 are the fields
--   of Vault.Cipher, and what a theorem needs of them is a hypothesis.
--
-- Prelude has what all of them share; JsMap is a Map, or a table by its primary key, as a list
-- of entries; Text is a string as the list of its characters, with split, join, trim and
-- decimal numbers.
--
-- Time is an argument of every operation, in milliseconds (seconds in Counters and Tsdb), as a
-- natural number; random bytes are arguments. scrypt, HMAC-SHA256 and Number are the fields of
-- Auth.Platform: what a theorem needs of them is a hypothesis, that Number reads back what
-- String prints, that base64url has no dot, that one text has different signatures under
-- different secrets. An awaited derivation is a step of its own, but an interleaving of two
-- requests is not modelled beyond the flag that refuses the second. Figures are natural numbers
-- in Counters and IdleSpin, and values of any type in Tsdb and Snapshot.
--
-- Fuel: decimal n computes with n + 1 steps, one for each digit and more than there are digits.
-- The loops of the rollup (Tsdb.Rollup.drain) test their counter as the source does and have
-- fuel for 24 turns; each turn that goes on counts one chunk, and the counter allows 24
-- (Tsdb.Rollup.Loop). Every other function is structural.
--
-- Not modelled: the other HTTP routes, the collectors' network access, the reading and the
-- schema of the configuration files, the catalog of capabilities, the usage queries, the
-- queries that read the timeseries, the web page and the agents. Nothing runs between the
-- chunks of a rollup, or while a route waits for a key derivation.
pub mod Prelude
pub mod JsMap
pub mod Text
pub mod NetGuard
pub mod ClientIp
pub mod Limiter
pub mod Auth
pub mod PushBindings
pub mod Counters
pub mod Snapshot
pub mod Tsdb
pub mod ComfyFollow
pub mod Effective
pub mod Engine
pub mod Server
pub mod IdleSpin
pub mod UserStore
pub mod Vault
pub mod CredStore
