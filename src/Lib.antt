-- ===== src/Lib.antt =====
-- Verification of the seat service: the seats of events, who holds them, and the metadata of layouts.
--
-- The program. Services on a PostgreSQL database, behind GraphQL resolvers and Kafka handlers. The
-- seat service (src/seat/services/seat-write.service.ts) creates, changes and deletes seats, assigns
-- them to guests and invitations, reserves them for invitations and releases them; it writes an
-- assignment log, an audit log (`logChange` of src/layout/services/layout-write.service.ts) and the
-- facts of the analytics outbox (src/analytics/analytics-outbox.service.ts).
--
-- The model. `Database` has the rows of prisma/schema.prisma and the database as lists of rows.
-- `Database.Client` is the interface of the Prisma client, which is no code of the repository: a
-- parameter, with what its documentation says of each call as the laws `IsDelegate`, among them
-- which rows a query returns and which a write changes, and nothing on order where the query asks
-- for none; a write may be refused. `Database.Memory` is a client for which the laws are proved.
-- `Action` has the service methods: a state, a value or a throw, and `$transaction`, which undoes
-- what a throwing body did; in `assignSeat` the audit log is written outside of it
-- (`db_transaction` of `Seat.Store`). `Database.Cascade` has the foreign keys of
-- prisma/schema.prisma. `Meta` is src/utils/meta-defaults.ts. `Seat.Store` has the services'
-- calls, `Seat.Edit`, `Seat.Assign`, `Seat.Claim`, `Seat.Reserve` and `Seat.Release` the methods
-- of SeatWriteService, one definition for each step, and their child modules the proofs.
-- `Seat.Fixtures` and `Seat.Tests` run them on a small event. `Projection` has the tables that the
-- Kafka handlers keep of other services' data: `Projection.Access` and `Projection.Role` are
-- src/handlers/event-role.handler.ts, `Projection.Presence` is src/handlers/milestone.handler.ts,
-- `Projection.Settings` is src/handlers/event-settings.handler.ts, `Projection.Invitation` is
-- src/handlers/invitation-seating.handler.ts, and `Projection.Resolver`, which reads two of them,
-- is src/seat/services/seat-event-role-resolver.service.ts. `Layout.Plan` is the plan of sections
-- and tables that src/layout/services/layout-write.service.ts makes for a number of seats, and
-- `Layout.Cleanup` its `deleteSeats`. `Layout.Geometry` has its `applyGeometry`, `undo` and
-- `redo`, with what undo and redo do where no geometry is to be undone (they restore layout
-- versions) as the argument `by_version`; a JSON column of the history gives back the numbers it
-- was given, so the doubles are neither NaN nor negative zero. `ColorGroup` is
-- src/seat/services/color-group-matcher.service.ts. `Outbox` is
-- src/analytics/analytics-outbox.publisher.ts: `Outbox.Steps` has the steps of several publishers
-- in any order, of which each run is shown to be a sequence, and `Database.Keyed` the lemmas on
-- rows with keys. `Areas` has src/utils/auto-order.ts and what sections and tables share,
-- `Areas.Sections` is src/section/services/section-write.service.ts and `Areas.Tables` is
-- src/table/services/table-write.service.ts, with the cascades of `Database.Cascade`. `Raster` is
-- `binaryThreshold` of src/layout-import/recognizers/raster-components.ts and `Raster.Components`
-- its `extractShapes` as far as the contours.
--
-- Conventions. Identifiers are UUIDs, so never empty texts, and stand as numbers: a test for truth of
-- an optional id is a test for its presence. Times are numbers of milliseconds. Doubles are bit
-- patterns. What other transactions commit between the selection of a row and the guarded update that
-- claims it is the argument `other`, an arbitrary change of the database. Recursion is structural,
-- but for the flood fill of `Raster.Components`, whose rounds are as many as there are pixels; each
-- pixel is put into the queue once.
--
-- Not modelled: the payload of the audit log, the ids of log rows, loss of the connection to the
-- database, the GraphQL layer, start-up and configuration.
pub mod Common
pub mod Errors
pub mod Action
pub mod Meta
pub mod Database
pub mod Projection
pub mod Layout
pub mod ColorGroup
pub mod Outbox
pub mod Areas
pub mod Raster
pub mod Seat
