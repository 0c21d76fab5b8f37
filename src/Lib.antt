-- ===== src/Lib.antt =====
-- Verification of controlai: a daemon that provisions IoT telemetry stacks (a TimescaleDB for each
-- tenant; an MQTT broker and ingest processes for each site) with docker compose on one host.
--
-- How the parts interact: the daemon (internal/daemon) checks requests (internal/config) and the
-- host's capacity (internal/capacity), and writes tenants, sites and the desired state of compose
-- projects to SQLite (internal/store/sqlite). The reconciler (internal/recon) reads the desired
-- states at every tick and calls docker compose (internal/runner) until they hold, with a backoff for
-- each project.
-- The ingest process of a site (services/ingest) buffers MQTT messages and writes them in batches.
--
-- Files:
-- - Prelude and Prelude/: tests, lists, signed numbers and texts that the modules share.
-- - Capacity: internal/capacity/profile.go. Profiles is the table (`SiteProfile`), Predictions is
--   `Predict` with its two loops, Costs the sums that describe it.
-- - Config: internal/config/tenant.go and site.go. Slugs has the patterns, the identifiers and
--   `validateSlugHTTP` of internal/daemon/server.go; Tenants and Sites have the records, `Validate`
--   and the settings that they decide; Settings relates them to the table of profiles.
-- - Store: internal/store/sqlite/store.go with the constraints of the schema. A table is the list of
--   its rows (Tables, Rows); a method is a `Query` on the database handle (Query), whose statements
--   run one at a time, each of which may fail by a given pattern; a transaction takes its writes back
--   on an error. Tenants, Sites, States, Audit, Tokens, Secrets and Certs have the methods; Keeps,
--   Triples, Integrity, Purges, Deletions, RoundTrips, FileHashes and TokenLife the proofs, DesiredMap
--   the desired states as a map.
-- - Recon: internal/recon/reconciler.go. Runtime has the outside as an interface, with the state of
--   the reconciler; Projects has `reconcileProject`, Ticks has `tick`, Trust has `ensureAllTrustFiles`,
--   Backoff the ladder; Frames, Retries and Convergence have the proofs.
-- - Daemon: internal/daemon. Admission is `admissionCheck` of server.go, and Demand what it compares;
--   Lifecycle and Removal are the handlers that start, stop and delete tenants and sites, with their
--   proofs in Stops, Ownership and Purge; Provision and Rendering are the credentials and the TSDB project of
--   provision.go, with their proofs in Credentials and Wanted, and SiteRendering is the project of a
--   site; Access is the token middleware and Reports is `handleCapacity`. TenantHandlers, SiteHandlers
--   and CertHandlers are the handlers that create, read and update tenants and sites and that issue and
--   revoke certificates, Operating has `handleStatus`, `handlePublish` and `handleLogs`, Applying has
--   `handleApply` with `pollConvergence`; Updates, Polling and Hashes have proofs.
-- - Files: the calls of the Go package `os` on a list of files (Disk), any of which may fail by a given
--   pattern, writes also half-way. Attempts has answers and errors with the state they leave, Atomic
--   is `writePEM`, Frames has what leaves which file alone.
-- - Pki: internal/pki. X509 is the interface to Go's crypto packages; Authority is ca.go, Issuing is
--   leaf.go and server.go, Sans and Rotation are ensure.go, Trust is trust.go; Frames, Issued, Renewal
--   and Served have the proofs.
-- - Render: internal/render/render.go. Results has `WriteResults` and the names of the Traefik files,
--   Writing its proofs; Hashes of Daemon is about the hash of the results.
-- - Runner: internal/runner. Compose has `runCompose` with its mutexes and its semaphore as steps that
--   interleave, Exclusion the proof; Docker reads the lists of containers.
-- - Migrate: internal/migrate/yaml/migrator.go. Migrator has `MigrateFile`, `WalkAndMigrate` and
--   `CheckSchemaVersions`, Versions the proof; the walk of a directory is the list of its entries.
-- - Backup: internal/backup/pgdump.go. Dumps has `Run`, `List` and `prune` on a directory that is the
--   list of its entries, Pruning the proof.
-- - Ingest: services/ingest. Codec has `decodePayload`; Buffer has `handleMessage` and the halves of
--   `flushNow` as steps that interleave, where an error of the INSERT may come after its commit; Delivery
--   has the proofs.
-- - Examples: the theorems at concrete inputs.
--
-- Bounds: Go's integers are 64 bits wide; the sums of megabytes and the counts here stay far below
-- that, so they are natural numbers, or signed ones where the code may go below 0. The product
-- `float64(usable) * 0.85` is its exact whole part 17/20, which holds below 2^40. All loops are
-- structural but the one of `pollConvergence`, which waits for docker: it runs on fuel, and fuel that
-- exceeds the time to the deadline by two is enough. Times are numbers of a clock.
--
-- Outside the repository, as arguments or interfaces: docker, docker compose, SHA-256, UUIDs, the
-- random texts, certificates and their cryptography, CBOR and JSON, the template engine, /proc/meminfo.
--
-- Not modelled: the command line, the router and the listeners, the text of the templates and the
-- engine's functions, the logger, which are processes and printing around these parts; the MQTT client
-- of `mqttPublish` and the HTTP server of the ingest process, which call a library; `Open` and the
-- schema migrations of the store; the set-up of the ingest process. Log lines and the texts of errors
-- are left out.
pub mod Prelude
pub mod Capacity
pub mod Config
pub mod Store
pub mod Recon
pub mod Ingest
pub mod Daemon
pub mod Files
pub mod Pki
pub mod Render
pub mod Migrate
pub mod Backup
pub mod Runner
pub mod Examples
