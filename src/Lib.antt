-- ===== src/Lib.antt =====
-- Runboard: test case and test run management for the QA teams of several organisations, a NestJS
-- backend (backend/src) over Prisma and Postgres with a React client (frontend/src). This library
-- models the core of the backend, and the client's requests and cache of runs.
--
-- How the parts interact. A request passes the guards (Guards: backend/src/common/guards), which
-- fill the request context (Context: backend/src/common/context/request-context.ts). A service
-- then runs a transaction; each query in it goes through the tenant extension (Tenant:
-- backend/src/prisma/tenant.extension.ts), which narrows it to the organisation of the context,
-- and each change writes an audit entry (Audit: backend/src/audit). After the commit the runs and
-- bugs services send events (Events: backend/src/runs/run-events.service.ts) to the sockets of a
-- room (Presence: backend/src/runs/run-presence.service.ts).
--
-- Files and the code they model:
--   Prelude            shared names, Boolean tests, lists as tables, whole numbers
--   Schema             backend/prisma/schema.prisma: enums and models; `Db` holds the tables
--   Exec               DomainException as `Failure`; an action is `Tx A = Db → Result A × Db`
--   Prisma             an interface: the operations of Prisma Client with their documented laws
--   Tenant             applyTenantScope, $allOperations; Tenant/Client the scoped operations;
--                      Tenant/Isolation what they can read and write; Tenant/Listings the
--                      ordered, paged and grouped reads; Tenant/Pages a client that follows
--                      the cursors
--   Guards, Auth       the four guards; auth.service.ts with the rotation of refresh tokens
--   Audit              audit.service.ts; Audit/Diff is diff.ts, Audit/Query audit-query.service.ts
--   Runs               lib/run-counters.ts (Counters), lib/run-status-transition.ts (Transition),
--                      and of runs.service.ts recordResult (Record), applyCounterShift (Shift),
--                      updateStatus (Status), create, updateAssignees, bugDraft (Setup), list
--                      and getOne (Listing); Record/Race cuts recordResult into two phases
--   Suites             lib/suite-tree-rules.ts (Rules) and suites.service.ts (Service)
--   Cases, Bugs        cases.service.ts and bugs.service.ts
--   Dashboard          dashboard/dashboard.service.ts
--   Presence, Gateway  runs/run-presence.service.ts; runs/runs.gateway.ts: the sockets and rooms
--   Members            organizations/members.service.ts
--   Organizations      getOne and update of organizations/organizations.service.ts
--   Routes             the controllers of an organisation's resources: roles and handlers
--   Client             frontend/src/lib/api-client.ts (Api); frontend/src/features/runs/cache.ts and
--                      use-run-socket.ts (Cache)
--   Filter             common/filters/all-exceptions.filter.ts and DomainException
--   Invitations        organizations/invitations.service.ts and the founding of an organisation
--   Dto                the optional fields of the request bodies
--   Floats             an interface: the floating point numbers of computeCounters
--   Examples           the theorems at concrete inputs, and tests by evaluation
--
-- A camelCase name of the source is written in snake_case. An operation with a transaction is two
-- definitions: `x_tx` is the body, and `x` runs it by `prisma.transaction`, which keeps what the
-- body wrote if it answers and drops it if it throws. Times, new ids, random tokens and hashes are
-- arguments. Ids stand for UUIDs, and no code looks into them.
--
-- The loop of ancestorChain runs on fuel, two more than the number of edges; each round but the
-- last adds a new id that has an entry or is the start, so the fuel is enough. All other loops are
-- structural recursion.
--
-- Pages are collected on fuel, one round more than there are rows, which is enough since each page
-- but the last holds a row or more.
--
-- Not modelled: HTTP and socket transport, the validation of requests by zod, passport and the
-- JWT, the wiring of NestJS modules, the plain reads that are left (the tree of suites, the cases of
-- a run, members, invitations, the organisations of a user), and the pages of the client.
-- Transactions run one after another, but for the two recordings of Runs/Record/Race; a `run:join`
-- may wait while other things happen (Gateway/Histories, Gateway/Ghost). Rows of one creation time
-- come in an order that may differ from query to query, but for the list of cases, whose queries
-- share one. The cases of a new run keep the order in which the database answers them, since their
-- creation time is no column here. What Postgres deletes by its foreign keys along with a suite or
-- a case is an argument of `remove`.
pub mod Prelude
pub mod Schema
pub mod Exec
pub mod Context
pub mod Prisma
pub mod Tenant
pub mod Audit
pub mod Floats
pub mod Runs
pub mod Dto
pub mod Cases
pub mod Dashboard
pub mod Bugs
pub mod Invitations
pub mod Presence
pub mod Gateway
pub mod Routes
pub mod Client
pub mod Filter
pub mod Suites
pub mod Guards
pub mod Auth
pub mod Members
pub mod Organizations
pub mod Events
pub mod Examples
