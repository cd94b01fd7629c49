-- ===== src/Lib.antt =====
-- qf is a host firewall: a control plane (cp/) compiles label-based policies into a bundle of rules
-- for each host, and an agent (agent/) on the host compiles the bundle into the maps of a BPF
-- program, counts, and reports events. This library models that path.
--
-- The path of a policy:
--   Policy       cp/internal/policy, the rows of cp/internal/store/gen/models.go:
--     Matching   selector.go: ParseSelector, MatchesLabels, ResolveHosts
--     Resolver   resolver.go: object groups to prefixes and ports
--     Ruleset    ruleset.go: RulesetCompiler.Compile and resolveRule
--     Bundle     bundle.go: buildProtoBundle, and GetBundle and Build without the signature
--     Cascade    cascade.go: which hosts a change recompiles, and what their streams get
--     DryRun     dryrun.go: a preview of other rules for a policy
--   Proto        the messages of proto/qf/v1/agent.proto and common.proto
--   Compiler     agent/internal/policy/compiler.go: CompileBundle, its IP sets and warnings
--   Handler      agent/internal/handler/policy.go: Apply
--   Loader       agent/internal/loader, the maps of objects.go as one state BpfObjects:
--     Rules      rules.go: toRuleEntry, PushRules
--     Ipset      ipset.go: PushIPSet, ClearIPSets
--     Settings   config.go: SetConfig, GetConfig
--     Conntrack  conntrack.go: keys, lookups and the sweep
--     Counters   counters.go
--     Events     events.go: decodeLogEvent
-- Policy.Bundle.Delivery joins the two ends. The stream between them:
--   Session      the messages of a session:
--     Signature  agent/internal/policy/bundle.go and cp/internal/pki/bundle_signer.go
--     Provider   cp/internal/policy/bundle.go: Build and GetBundle with the signature
--     Service    cp/internal/agentsrv/session.go and handlers.go: Stream and its handlers
--     Client     agent/internal/grpcclient/handshake.go and bundle.go
--     Agent      agent/internal/agent/agent.go: runSession
--     Files      bundle.go, agent/internal/agent/boot.go, certrotate.go: files and the start
--     Renewal    handlers.go and agent/internal/grpcclient/certrotate.go: certificate renewal
--     Opening, Applied, CatchUp: the two ends together
-- Beside the path:
--   Server       cp/internal: Registry (agentsrv/registry.go), Hub (pubsub/hub.go),
--                RateLimit (api/ratelimit.go)
--   Telemetry    agent/internal/grpcclient: DiskBuffer (diskbuffer.go), Batcher and Convert
--                (eventbatcher.go), Flows (flowcollector.go), Senders (heartbeat.go,
--                counterpoller.go, configupdate.go)
--   Pki          cp/internal/pki: Tokens (tokens.go), Revocation (revocation.go)
--   Ingest       cp/internal/ingest: Worker and Ingester (ingester.go), Convert (convert.go)
-- Where policies and hosts are written:
--   Store        the database, cp/internal/store/gen and cp/migrations, a statement as a function of
--                its tables:
--     Rules, Policies, Versions   policies.sql.go and versions.sql.go
--     Hosts, Groups               hosts.sql.go, and objectgroups.sql.go with tenants.sql.go
--     Reads                       the queries that Policy reads, filled from the tables
--     Keeps, Laws, WellFormed     what programs of statements keep
--   Api          the HTTP API, cp/internal/api, each handler a program over the store:
--     Policies, Rules, Versions   policies.go; Routes has them as one operation
--     Hosts, Groups               hosts.go, and objectgroups.go with defaultpolicy.go
--     Tokens                      tokens.go, over Pki.Tokens
--     Tasks                       the goroutines that handlers start
--     Keys, Ports, Revert, References: theorems on these
-- Common, Net and Uuid hold what these share: lists, results, byte strings, the stable sort,
-- addresses and identifiers. Examples has the theorems at concrete inputs.
--
-- State is passed explicitly: an operation on the maps takes a BpfObjects and returns the new one
-- with a result, so that a failing step keeps what the earlier steps have written. The record
-- Kernel says which map operations succeed; Codec stands for encoding/json and package net,
-- Queries for the database queries that a compilation makes; the theorems hold for all of them. An
-- operation that holds a lock is one step. A Go map is an association list or a function. Sort is
-- the stable sort by its result.
--
-- Integers are natural numbers with the wrap-around of the source written out; enums are the
-- numbers of their 32 bits. No fuel is needed: every loop is over a list or a count. The compiler's
-- set numbers are 32 bits wide and each rule may take two, hence the condition of fewer than 2^31
-- rules where a theorem needs the numbers to be distinct.
--
-- A statement of Store is known by its number in the run. The record Database says which statements
-- get through, when they run, which ids they make and how a JSON column is given back; the
-- constraints of cp/migrations are in the statements. In a transaction, an error other than
-- no rows makes PostgreSQL refuse what follows. A handler gets the decoded request, and the
-- goroutines that it starts are queued, to be run by Api.Tasks at any later time.
--
-- Protobuf and ed25519 are the parameter Crypto; SHA-256, base64 and the JSON of labels are the
-- parameter Encoding. An SQL statement in the source is a function of the rows of its table. In
-- Session, a host's row is the one of the session, and telemetry is known by a number.
--
-- Not modelled: the BPF programs, protobuf encoding, the certificates themselves, enrollment, the
-- handlers of events and of the audit log, authentication and roles, the generated code of
-- their queries, the partitions of the telemetry tables, the reconnect loop and its delays, and
-- the text of errors.
pub mod Common
pub mod Net
pub mod Uuid
pub mod Proto
pub mod Loader
pub mod Compiler
pub mod Handler
pub mod Policy
pub mod Server
pub mod Telemetry
pub mod Session
pub mod Pki
pub mod Ingest
pub mod Store
pub mod Api
pub mod Examples
