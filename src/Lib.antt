-- ===== src/Lib.antt =====
-- The backend of the team manager (backend/, in Go): accounts and sessions, teams with members, roles
-- and permissions, events with attendance, absences, polls, finances, and the keyset pages of its
-- lists. The services are layered: an HTTP handler calls a service (service.go), which checks what the
-- database cannot and calls a repository (repository.go), whose transactions run against PostgreSQL,
-- many of them under an advisory lock of the team. The middleware decides before any handler runs
-- whether a request may reach a team at all.
--
-- How the code is modelled. An identifier (a UUID) is a number, since the code only compares them;
-- dates and times are numbers. A table is a list of rows, a query one of `any`, `find`, `select`,
-- `count`, an UPDATE, DELETE or INSERT the function `update`, `delete` or a new head (Base/Rows.antt);
-- a constraint of the schema is part of the invariant (`Distinct`) or of the operation that it can
-- refuse. A transaction is a function from the tables to an outcome (Base/Results.antt): the new
-- tables, or an error, which rolls back; the auth service runs its statements outside of one, in the
-- monad of Auth/Run. Ids that the database generates and the clock are arguments. The failures of the
-- database itself (lost connections, timeouts) are not modelled. A run is a sequence of such
-- functions; the `Step` types say which. Those on members and roles, AcceptInvite, EraseUser and the
-- creation and change of absences hold the team's lock, ReplaceVotes one of its user and poll, so that
-- one waits for the other. Events take the lock only to check nominated roles, and finances take none:
-- their operations are modelled as atomic too, but for CreateContributions, whose count is read before
-- its transaction and is a table of its own (`seen`), and the checks of SetAttendance and
-- SetNomination, which read tables of their own. Where a service checks a cap per team in a statement
-- before the write, two calls at once may exceed it, and no theorem claims the cap. The foreign key of
-- a session on its user is not modelled: sessions are made for users that were just read.
--
-- The modules:
--   Base: shared names, tables, keys, outcomes, byte strings (the functions of package strings),
--     lists.
--   Access/Permissions, Access/Levels: PermissionsJSON, permLevelRank, foldMax, foldPermissions and
--     MergePermissions of backend/internal/members/repository.go and
--     backend/internal/teams/repository.go.
--   Access/Middleware, Access/Routing, Access/Gate: RequireMembership and RequirePermission of
--     backend/internal/middleware/authz.go. The generated route table, uuid.Parse, the user of the
--     context and the two checkers are parameters.
--   Roster/Db, Queries, Ceilings: the tables of users, teams, memberships, roles, assignments,
--     invites, and what the queries of members, roles, teams and auth ask of them.
--   Roster/Members, Roles, Teams, Accounts: SetRoles and RemoveMember
--     (backend/internal/members/repository.go), CreateRole, UpdateRole and DeleteRole
--     (backend/internal/roles), CreateTeam and AcceptInvite (backend/internal/teams/repository.go),
--     and EraseUser (backend/internal/auth/repository.go).
--   Roster/Invariant, History, Escalation: what these keep, alone and in any sequence.
--   Absences/Store, Service: backend/internal/absences; Overlap, Updates, History and Rights are about
--     them.
--   Polls/Store, Assemble, Service: backend/internal/polls; Tally, Anonymity, Votes, Voting and
--     SingleChoice are about them.
--   Pagination/Limits, Cursor, Keyset: backend/internal/pagination and the pages that absences, polls
--     and finances build with it. JSON, base64 and HMAC are parameters (`Codec`).
--   Finances/Store, Transactions, Penalties, Contributions: backend/internal/finances; Links, Relinks,
--     Ledger, Cashbook, Batch and Totals are about them.
--   Events/Store, Service: SetAttendance and SetNomination of backend/internal/events, with
--     EventStartInstant (zonedtime.go); the time zone database is a parameter. Attendance, Listing:
--     computeEffectiveAttendance (attendance.go) and ListAttendance (service.go). Series: seriesDates
--     (repository.go). Creation, Changes, Removals, Planner: CreateEvent, CreateSeries, UpdateEvent,
--     SetStatus and DeleteEvent (repository.go, service.go). Permissions, Responses, Guards, Accepts,
--     Nominations, Redaction and Confidential are about responses, Targets, WellPlanned, Planning,
--     Agenda, Endings, NewEvents, Lifecycle, Kept, Held, Past, Remainder, Untouched, Owners, FirstRow
--     and Announced about events and series.
--   Auth/Run: functions that run statements one by one, what was written before an error staying
--     written.
--   Auth/Store, Statements, Service: backend/internal/auth (model.go, repository.go, service.go), with
--     bcrypt, SHA-256, the signing of tokens and the normalisation of addresses as parameters. Traces,
--     SingleUse, Reset, Sessions, Adoption and Uniform are about them.
--   Tests: runs on small data and the theorems applied to them.
-- The parts meet in the tables of the roster: the middleware's checkers, the absences, the polls, the
-- finances and the events read memberships and effective permissions from it. A service that checks
-- before its repository writes reads other snapshots than the write does: SetAttendance has one for
-- each read. EraseAccount changes the roster and the accounts together.
--
-- Bounds. The loops are structural recursions over lists, or over the bound of 104 weeks of a series.
-- Only the client that walks through pages has fuel, one more than the listing has rows, which is
-- shown to be enough. The caps per team (500 roles, 50000 polls, 100000 transactions) and the bound of
-- an amount (100000000 cents) are the code's.
--
-- Not modelled: the listing and the summaries of events, comments, news, statistics, notifications and
-- calendar feeds, which are for later; columns that are only displayed, photos, the export of an
-- account's data, the OIDC client, cookies, the float32 percentages of polls; handlers, generated
-- code, configuration, storage, mail and metrics, which are input and output; and the frontend.
pub mod Base
pub mod Access
pub mod Roster
pub mod Absences
pub mod Polls
pub mod Pagination
pub mod Finances
pub mod Auth
pub mod Events
pub mod Tests
