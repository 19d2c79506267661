-- ===== src/Lib.antt =====
-- Blueveil's collector: the checks at its boundaries, incidents and their life cycle, the gated path
-- from an incident to a response, the validation of controls along that path, the evidence and the
-- stores of all records, the supply chain and governance models, credentials, and assets.
--
-- The program. The collector (Go, collector/) turns telemetry into detections, alerts and incidents,
-- and an incident into a response that a human may have to approve. Every message that crosses a
-- boundary passes a validator of internal/contract. The response layer (internal/response) builds a
-- proposal from an incident (recommend.go), asks a policy (policy.go), parks what needs a human until
-- it is approved (approval.go), hands it to an executor once (executor.go), judges the report
-- (verifier.go), and writes each decision to an append-only log (audit.go); engine.go holds the
-- state and walks a recommendation through these steps. A control is validated along the same path:
-- internal/validation wraps a provider as an executor of the engine. What was seen is kept as evidence
-- with a digest (internal/evidence), and every record in a repository (internal/store).
--
-- The files.
-- - Prelude: what the parts share. Prelude.Library holds digests, formatting and the letter cases,
--   Prelude.Space and Number are trimming, splitting and strconv.Atoi, Prelude.Time is time.Time in
--   nanoseconds and protobuf's Timestamp, Prelude.Dict a map, Prelude.Names a set of names with its sorted listing, Prelude.Result a value
--   with an error beside it, and Prelude.Exec a method that changes an object and may fail or panic,
--   with rules for what holds after it (Exec.After) and what it keeps (Exec.Keeps).
-- - Contract: collector/internal/contract and the messages of contract/v1. A message pointer that may
--   be nil is an Option; an enumeration has the listed values and `out_of_range` for the others.
--   Contract.Check, Response, Detection, Incident, Validation and Asset are the validators, Fields the
--   tests that the domain packages share, Sensitive the names of secret fields; Contract.Valid and
--   Passed say what is accepted.
-- - Response: collector/internal/response, a module for each of its files. Response.Engine.State is
--   the state of the engine; Slots are its methods on the recommendation and the session that they
--   change in place, and Methods are the exported methods around them. Phase, Sound and Recommended
--   are the invariant, Frame and History the audit log and what never changes, Entries, Spent, Use
--   and Once the use of the executor, Transitions and Lifecycle the life of a recommendation, and Runs
--   the sequences of calls. Safety and Policy each have their own switch over operations and risks,
--   as in Go; Safety.Human says which of them need a human.
-- - Incident: collector/internal/incident, and correlate. Correlation is the key that alerts are
--   grouped by, Records what Ingest checks and writes, Manager the methods. Coherent is the
--   invariant, Attached what Ingest promises, Steps the life cycle, Runs the sequences of calls.
-- - Auth: collector/internal/auth. Roles is the hierarchy and the role that a route needs, Keys the
--   API key authenticator, Guard what they let through.
-- - Asset: collector/internal/asset. Lifecycle has the two functions of lifecycle.go, Ages what becomes
--   of an asset; Canonical and Discovery are the identifiers and observations.
-- - Evidence: collector/internal/evidence. Item is NewItem and Verify, Alerts is BuildForAlert, Store the
--   store; Faithful and Complete are about them.
-- - Validation: collector/internal/validation, a module for each of its files. Request.Named, Found and Control,
--   Exercise.Built, Executor.Recorded and Noted and Runner.Answered are about them; Runner runs the engine of
--   Response with Executor as its executor.
-- - Grc: collector/internal/grc/model.go and resilience.go, with Basis and Resilience.Posture.
-- - SupplyChain: collector/internal/supplychain. Component and Link are model.go and link.go, Dependency
--   and Sbom dependency.go, Versions and Policy the comparison of versions and EvaluatePolicy in it,
--   Vendor vendor.go, Checks continuous.go; Policy.Verdict is the reference verdict.
-- - Store: collector/internal/store, in memory. Table is what the repositories share and Table.Refines
--   the abstract store that it implements; Memory has a module for each repository, Backend bundles
--   them, and Backend.Valid, Retained and Distinct are the invariants over any calls, with
--   Memory.Links.Kept for the links.
--
-- How the parts meet: an incident that Incident.Manager returns, with its alert, its detection and
-- the events behind it, is what Response.Recommend takes, and both check them with the validators of
-- Contract. Validation.Runner takes an incident through Response with the provider behind the gate, and
-- files the answer as Evidence; Store keeps the records of all parts, each behind the validator of its
-- part. Auth stands in front of the HTTP routes and authorizes no response.
--
-- Choices. A method keeps what it has changed before it fails or panics, as in Go. The mutex of the
-- engine makes a history of concurrent callers a sequence of calls, and the theorems quantify over
-- all of these. A value that is returned beside an error is left out. Times before the year 1 are
-- not represented: a timestamp of such a time, also one whose seconds wrap, reads as the zero time. Loops run over lists and strings; only the printing of a number n has fuel, and its
-- n + 1 rounds are more than n has digits. A method of the incident manager reads the clock at most
-- once, and takes what it reads as an argument.
--
-- Parameters. The policy, the executor (with a state of its own), the verifier and the clock of the
-- engine are arbitrary functions, and so are sha256, RFC 3339 formatting and %q, of which nothing is
-- assumed: an identifier is whatever they make of its parts. bcrypt's comparison and its test of a
-- hash, MarshalCanonical, unicode's letter cases, netip, net and net/url are arbitrary too, and so is a
-- provider of validations, as a function of the request. That no text has the empty digest is a
-- hypothesis of the theorems on evidence. RunCase gives one clock to the engine and to the executor;
-- their readings of it are numbered apart.
--
-- Not modelled: the wire format and the generated accessors of contract/v1; the texts of errors; the
-- returned pointers, so that what a caller does to a record that a method has returned is not seen, nor
-- the cloning of records in the stores; contexts and cancellation; the stores over a database, whose
-- methods are SQL; the history of the supply chain, the detection rules, pipelines and the
-- other packages of the collector; the Rust core, the extensions and the user interface.
pub mod Prelude
pub mod Contract
pub mod Response
pub mod Incident
pub mod Auth
pub mod Asset
pub mod Evidence
pub mod Validation
pub mod Grc
pub mod SupplyChain
pub mod Store
