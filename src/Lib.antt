-- ===== src/Lib.antt =====
-- Frontkeep's governance core: a model of its Rust crates under crates/ and the theorems that
-- make it correct.
--
-- Frontkeep stands between an organisation's projects and what they consume: models, cloud
-- resources and promotions to a higher tier. A person or an agent signs in (identity). A project
-- is registered and gets a key; each completion it asks for passes the gateway, which checks the
-- key, the lifecycle, the kill switch, the budget, the policy and the guardrails before a
-- provider sees it, and books the cost after. What needs a person's consent is a request of the
-- workflow engine, which keeps the state and an audit log. A promotion is such a request: the
-- registry judges the project's evidence, may park the request under review for a queue of jobs,
-- and finally flags it or lets it go on. Cloud resources are rows that workers claim, drive and
-- retry.
--
-- The parts and their files:
--   Base: types and lemmas that the parts share. Keyed, Table and Sort are the tables, their WHERE
--     statements and ORDER BY; Fallible is the result type; Json the values of the JSON columns;
--     Float the amounts of money.
--   Policy: crates/policy/src. Engine is the interface in lib.rs, a parameter of what asks it; Cedar
--     is cedar_engine.rs, FailClosed what it allows.
--   Storage: crates/storage/src/audit.rs, leases.rs, and the clock and ids of lib.rs. Exclusion has
--     the mutual exclusion of leases.
--   Workflow: crates/workflow/src/lib.rs. State and Engine are the data and the queries,
--     Transitions the operations that move a request; Outcomes, Submission, Listing say what each
--     does, Lifecycle and Trail what any sequence of calls does, Race what two interleaved calls do.
--   Gateway: crates/gateway/src. Guardrails and Redaction are guardrails.rs, Provider is the
--     registry of models and the interface of providers, Tables and Keys are keys.rs, Call and
--     Complete are `Gateway::complete` in lib.rs, Branches and Reads and Served its cases, Killed
--     the kill switch over any sequence of calls, ToolLoop and Consulted are tools.rs.
--   Registry: crates/registry/src. Tiers, Records, Promotion are promotion.rs, evidence.rs and the
--     registration of lib.rs; Steps and Verdicts their theorems. Active
--     is the gate on a project. Members is members.rs and what lib.rs does with it, Membership what
--     a grant gives and its removal takes. ReviewJobs and Claims are
--     review_jobs.rs. Outcomes, Finalize and Escalation are the end of a review in lib.rs, Drain,
--     Pending and Drained a pass of the worker over the queue.
--   Provision: crates/provision/src. Repo, Queries and Claims are repo.rs; Worker and Retries are
--     `drive_core` and the retry policy of lib.rs. Manifest, ServiceCatalog and Offered are
--     manifest.rs. Connectors, Requests and Enqueue are the way of a request in lib.rs to a row,
--     Permitted and Admission which requests are taken up. Cascades is what is done to all
--     resources of a project, Cascaded, Suspended and Resumed what that leaves. Single, Enqueued
--     and Twins are what a request does to the rows of its name, Retried how often a failed run is
--     made again. Apply is the run of a connector and the
--     routing of secrets, TextSets, Secrecy and Applied where they end. Grants and Granted are requests for
--     access between two resources. Changes is what is done to a single resource by hand, Linked
--     what becomes of one that is only recorded.
--   Catalog: crates/catalog/src. Refs and Entities are entity.rs, Repo and Stored repo.rs,
--     Reconcile, Observed and Removed a pass over a source in reconcile.rs.
--   Identity: crates/identity/src/lib.rs. Roles, Users and Tokens; Sync and Disabled are theorems.
--   Each part has its Tests, which run the theorems at concrete inputs.
--
-- State and operations: the tables that a part reads and writes are a record (WorkflowDb,
-- GatewayDb, RegistryDb, ProvisionDb, IdentityDb), an operation is a function from the record to
-- the new record and the operation's result, and carries the name of the code's method. A
-- concurrent history is a list of calls; where a method runs two statements, what others do
-- between them is an argument (Registry.ReviewJobs.claim_turn) or the two halves are functions
-- of their own (Workflow.Transitions). The audit log is part of the state.
--
-- Bounds and fuel: numbers are natural numbers, but for the seconds of a backoff. An instant is
-- a number of milliseconds, as the stored texts sort by it; clock readings of one call are one
-- instant. Subtractions that the code does on instants stay at zero here, before 1970.
-- `backoff_secs` saturates at 64 bits and wraps in its cast as the code does; deadlines beyond
-- the years that chrono has, at which the code panics, are instants like others. Where a lookup
-- and an insert are two statements, as in `enqueue_apply`, they are one step here unless an
-- argument says what comes between. `claim_next` has no bound in the code: it takes the turns it
-- makes, and one quiet turn is enough for it to return. `drain_reviews` gets one round for each
-- job and one more, which is enough for a worker that is alone. `inline_wait` counts the sleeps
-- that its budget holds. `rounds` of the tool loop counts the rounds that the code allows.
--
-- Parameters: the policy engine and the Cedar library, regular expressions, digests, providers,
-- connectors, reviewer panels, the JSON parser, and 64-bit floats, which come without laws.
--
-- Not modelled: failures of the database, so an operation's errors are those that it makes
-- itself; HTTP, GraphQL and MCP handlers, the command line, OIDC exchanges, the bundled
-- policies, OpenTofu connectors and run logs, a provisioning service without a handle on the
-- workflow engine, the sources and seeds of the catalog, the reviewer's prompts, skills, and of
-- the registry, the catalog and the provisioning service what is not named above.
pub mod Base
pub mod Policy
pub mod Storage
pub mod Workflow
pub mod Gateway
pub mod Registry
pub mod Provision
pub mod Identity
pub mod Catalog
