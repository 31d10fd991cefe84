-- ===== src/Lib.antt =====
-- The control plane of a WireGuard mesh (wg-svc, internal/wg): devices and hubs register with a
-- token, are given an address in their hub's network, ask for the peers and routes to configure,
-- and are removed when they leave or fall silent; an operator mints tokens and links hubs. This
-- library models that core as functions from one database to the next.
--
-- The program is a set of HTTP handlers over a PostgreSQL database. A transaction or a statement
-- is a function that takes a database and returns the next one, or an error, in which case
-- nothing is kept. Requests are modelled after their JSON has been read. What a call takes from
-- its surroundings (time, random ids and tokens, the hash function, the IPv6 half of
-- net.ParseCIDR, name resolution, the parsers of URLs) is an argument.
--
-- - Base: the tests, texts and tables that all parts use; Go's strings and strconv functions on
--   native texts.
-- - Errors: the error variables and messages as values, a result type, and the rules by which a
--   chain of steps ends.
-- - Net: networks and addresses, parseMeshCIDR, deviceIP, cidrOverlaps, firstLANCIDR and others
--   (internal/wg/alloc.go, store.go, handlers.go). Go's net.ParseCIDR is written out for IPv4.
-- - Store: the rows and statements of internal/wg/store.go, with the constraints of
--   scripts/migrate/wg-schema.sql.
-- - Alloc: the allocator behind /v1/register (internal/wg/alloc.go): allocateWGDevice,
--   doAllocate, refreshExistingDevice, bindHubDevice, allocateDevice, the sites and the indexes.
-- - Routing: which networks are given to a hub and to a spoke, the checks on routes, and the
--   answers to /v1/peers and /v1/hub/peers (internal/wg/handlers.go).
-- - Mint: createWGTokenForDevice and createWGTokenForHub, and what is drawn for a token and a
--   device, of the random bytes (internal/wg/store.go).
-- - Api: the endpoints of a device: bearer check, register, heartbeat, leave, token refresh
--   (internal/wg/handlers.go, helpers.go).
-- - Admin: the operator's changes of hubs, links, tokens and devices (internal/wg/handlers.go).
-- - Gc: the sweep over stale devices and the loop around it (internal/wg/gc.go).
-- - Bundles: the packages of the client program, their unique indexes, upload, latest mark,
--   lookup and download (internal/wg/store.go, bundle_assets.go, bundle_handlers.go). The bytes,
--   their hash and their size are the asset service's answers.
-- - Cloud: the endpoints for programs on the same machine: mint, get, release, host links
--   (internal/wg/internal_cloud.go, internal_wg_link.go). Durations are 64-bit, with their
--   wrap-around written out.
-- - Install: the installer that is served (internal/wg/handlers.go, install_script.go). The
--   script for Linux is an argument, and of the template only the values that are filled in are
--   modelled.
-- - Dns: the name service of a hub (internal/wg/dns_handlers.go).
-- - Auth: the gate before the operator's endpoints (internal/wg/auth.go); the dock service's two
--   answers are arguments.
-- - Status: the cache of live samples and the intervals that are read from environment variables,
--   the polls that fill the cache, and the page of hub statuses with the roster that stands in
--   for a missing sample (internal/wg/hub_status_poll.go, hub_status_handlers.go, gc.go). The
--   page writes host ids into the cached samples, so it gives the cache back.
-- - Dump: the parser of `wg show dump` and of the route tables
--   (internal/wg/hub_local_self_poll.go, hub_local_routes.go).
-- - Wgctl: the parser of `wgctl show` (internal/wg/hub_local_wgctl.go), its three regular
--   expressions read character by character, its sums in 64 bits.
-- - Selfpoll: the poll of the hub's own interface: which tool is run, what is pushed to dock
--   (internal/wg/hub_local_self_poll.go, hub_local_wgctl.go, hub_local_routes.go). The machine is
--   an argument.
-- - Pipeline: the maps that the two parsers build, as JSON, from the poll of a hub's own
--   interface to the page of hub statuses (internal/wg/hub_local_wgctl.go,
--   hub_local_self_poll.go).
-- - Plugin: the configuration and the start, the table of routes and the gate before the
--   operator's (internal/wg/plugin.go, cmd/wg-svc/main.go). Which route is taken for a request is
--   gin's choice, an argument.
-- - Steps: the control plane as a machine. A state is a database; a step is one request that
--   succeeds, a token's creation, or a turn of the sweep; the reached databases are those that
--   steps lead to from empty tables. Its children say which statements leave every device in its
--   place, what registration does on a reached database, and how a call with its two transactions
--   ends.
-- - Examples: sample data and runs of the theorems on it.
--
-- The searches for an index and for a network run for a number of rounds that is the size of the
-- range the source loops over (253, 254 and 16384), and the call of a registration for its two
-- attempts; no other loop has a bound of its own. Times are natural numbers of nanoseconds. A
-- hub's id is never 0, as the source takes for granted.
--
-- The steps leave out the updates that give a hub another network or address: an operator may do
-- so while the hub has devices, and the devices then keep addresses of the old network. A device
-- id that is drawn is taken to be no row's: it has 64 random bits, and the unique index refuses a
-- collision.
--
-- A CIDR of IPv6 is refused as no IPv4 network here, an IPv4-mapped one too, which the source
-- takes. Fields of a dump are natural numbers.
--
-- Not modelled: the text of the install scripts, metrics, the texts of log lines, the HTTP server
-- and the heartbeat to dock, and the user interface, which are text, wiring or I/O; how
-- encoding/json, time.Parse and strconv.ParseFloat read their input, which are arguments.
-- Concurrency is that of whole transactions and whole requests, one after the other; the cache of
-- resolved names is taken for the resolver.
pub mod Base
pub mod Errors
pub mod Net
pub mod Store
pub mod Alloc
pub mod Routing
pub mod Mint
pub mod Api
pub mod Admin
pub mod Gc
pub mod Bundles
pub mod Install
pub mod Cloud
pub mod Dns
pub mod Auth
pub mod Status
pub mod Dump
pub mod Steps
pub mod Wgctl
pub mod Selfpoll
pub mod Pipeline
pub mod Plugin
pub mod Examples
