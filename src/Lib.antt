-- ===== src/Lib.antt =====
-- Qlerify Live: a live model of a business process over its systems. A workflow's model is a graph of
-- domain events; users act on it through commands, and every action passes the policy decision point
-- and is written to an audit log.
--
-- The files and the parts of the program that they model (paths from the repository's root):
--   Prelude.antt        JavaScript's arrays, `Set`, `Map`, `===` and template literals over the
--                       libraries' lists, texts and native numbers.
--   Errors.antt         src/errors.ts: the error classes and their statuses. A call that can throw
--                       returns a `Result`.
--   Pdp.antt            src/platform/pdp: `authorize` (Pdp/Decision.antt), the groups of a caller
--                       (Pdp/Principals.antt), the actions (Pdp/ActionMap.antt). The tables of
--                       prisma/schema.prisma that it reads are lists of rows (Pdp/Types.antt).
--   Audit.antt          src/platform/audit: `recordAudit` and `verifyAuditChain` over a list of rows.
--   RateLimit.antt      src/platform/authn/rate-limit.ts: `SlidingWindowLimiter` and
--                       `LoginRateLimiter`, whose buckets are passed in and returned.
--   Ontology.antt       src/ontology/model.ts: the events, `successorsOf` and `topologicalOrder`;
--                       Ontology/Cache.antt has the models that are bound to workflows.
--   Tenancy.antt        src/platform/tenancy: what a request is bound to.
--   Authz.antt          src/platform/authz.ts: `ensureAllowed` and `guardData`, which decide through
--                       Pdp, write through Audit and read the request through Tenancy.
--   NextActions.antt    src/twin/next-actions.ts: which events of a case can happen next, by the order of
--                       Ontology.
--   Cohort.antt         frontend/src/lib/cohort.ts: `cohortStats` over the cases of a slice.
--   Sessions.antt       src/platform/authn/sessions.ts: `createSession`, `resolveSession` and
--                       `revokeSession` over the table of sessions.
--   Period.antt         src/twin/period.ts: `periodOf` and `periodStart`, over JavaScript's `Date` in UTC
--                       (Period/Calendar.antt), and `periodKeyOf` (Period/Keys.antt).
--   Correlation.antt    src/twin/correlate.ts: `decideCaseId` (Correlation/Decision.antt) along foreign keys
--                       and cycle links (Correlation/Links.antt), which are named by Period, and
--                       `correlateCaseId` over the rows of the event log.
--   Projection.antt     src/twin/projection-store.ts: `findById`, `insert` and `update` on the rows of a
--                       table.
--   Commands.antt       src/commands/base.ts: the generic command, `genericApply`, over tables of
--                       Projection and a log of events; its binding to the model (Commands/Bound.antt), the
--                       values of its columns (Commands/Values.antt) and `genericDetect`
--                       (Commands/Detect.antt).
--   Connectors.antt     src/packs: which tenant may address a connector (Connectors/Ownership.antt, by the
--                       request of Tenancy), its trigger rules (Connectors/Rules.antt, Loading.antt and
--                       Passes.antt) with their files (Connectors/Files.antt), and the notes of its
--                       journal (Connectors/Journal.antt).
--   DomainRoles.antt    src/platform/domain-roles.ts: the lanes that members play in a workflow.
--   ReadCache.antt      src/platform/read-cache.ts: the reads, fills and invalidations of the cache of
--                       reads, over its map as state and for the requests of Tenancy.
-- The children of a file hold its parts and the proofs about it; Tests has runs at concrete inputs.
--
-- Names: a function of the source keeps its words in this language's spelling (`expandPrincipal` is
-- `expand_principal`), and a loop of a function has a name of its own.
--
-- Fuel: the walk over groups takes one round for each row of the membership table, since each round
-- marks a group that is new; the loop of `topologicalOrder` takes one round for each event, since each
-- round puts a key into the order that was not there; the walk along `coupledTo` takes one round for
-- each event and two more, since it stops at a key that it has seen and may end at a key that the model
-- does not have; the eviction of models takes one
-- round for each model, since each round drops one; the walk of `isCreateEvent` takes one round for each
-- predecessor that the event and the events of the model name, and one more, since a key is pushed once
-- for each name; the year of a date is looked for from a 366th of its day on, in as many rounds as the
-- years before it can be too few; a number is written with at most 21 digits.
--
-- Parameters: the digest function, the random tokens, the ids and the time of an audit entry or of a
-- session, the clock of the limiter, the conversions of values to numbers and texts, the database's order
-- of texts, the sidecars of a tenant, the texts of the rules' files in a pass, which of them are compiled
-- already, and the deny-scan of a rule's code.
--
-- Not modelled: the database itself, HTTP, the language models, the pulls and schedules of the
-- connectors, the regular expressions of their scan of compiled code, and the views.
-- A table is a list of its rows in the order of the query (DomainRoles puts them into it), and an
-- asynchronous call is one step; the
-- queue for each organisation that `recordAudit` keeps is why an append is one step.
pub mod Prelude
pub mod Errors
pub mod Pdp
pub mod Audit
pub mod RateLimit
pub mod Sessions
pub mod Tenancy
pub mod Authz
pub mod Ontology
pub mod NextActions
pub mod Cohort
pub mod Period
pub mod Correlation
pub mod DomainRoles
pub mod Projection
pub mod ReadCache
pub mod Commands
pub mod Connectors
