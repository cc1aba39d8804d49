-- ===== src/Lib.antt =====
-- Program Capacity and Invoice Reservation Service.
--
-- The service keeps credit programs, each with a limit in minor units of its currency, and reserves
-- capacity of a program for invoices. API requests create, read and release reservations; Kafka
-- messages of the treasury change limits and replace the reservations of a program by a snapshot.
-- Everything is kept in Postgres tables, and every request and message is one transaction.
--
-- The state is `Db` (Store/Schema.antt), a list of rows for each table that the code uses, and a
-- count of the uuids drawn. Work in a transaction has the type `Tx A`: a function of the database
-- that returns a value and a database, or an exception. `run` (Store/Transaction.antt, for
-- src/database/transaction-manager.ts) commits the one and rolls back the other.
--
--   Base           numbers of JavaScript, `bigint` as ℤ over the native numbers, tables as lists
--                  (Rows, Unique, Lookup), `split`, `join` and `slice` on texts (Words), and what
--                  columns of Postgres store (Columns)
--   Errors/Codes   src/common/errors/error-codes.ts, app-error.ts, and the exceptions thrown
--   Errors/Filter  src/common/errors/http-exception.filter.ts
--   Store          tables, transactions, and rules for what a transaction keeps or has done
--   Programs       src/programs: program.repository.ts (Repository), programs.service.ts (Service)
--   Fx             src/fx: money.ts (Money), fx.service.ts and currency-metadata.service.ts (Service)
--   Audit          src/audit/ledger.repository.ts
--   Reservations   src/reservations: reservation.repository.ts (Repository), and of
--                  reservations.service.ts `findById` (Service), `create` (Creation) and `release`
--                  (Release)
--   Treasury       src/treasury: treasury-message.schemas.ts (Events, Schemas),
--                  processed-kafka-message.repository.ts (Messages), reconciliation.repository.ts
--                  (Runs), treasury-capacity-update.handler.ts (CapacityUpdate),
--                  treasury-reconciliation.handler.ts (Snapshot, Reconciliation), and
--                  treasury.consumer.ts (Consumer), whose state adds the committed offsets to Db
--   Auth           src/auth: jwt-auth.guard.ts and scopes.guard.ts (Guards), and what they read of a
--                  header (Bearer) and of a token's claim (Granted)
--   Logger         src/logger: request ids (RequestId), the access log (AccessLog, with Ignored,
--                  and Logged), redaction (Redaction) and logger.config.ts (Config)
--   Http           the controllers of src/programs, src/reservations and src/health (Controllers),
--                  and a request's way through src/main.ts, the guards and the filter (Server)
--   System         the states that sequences of requests and messages reach, and what holds there
--   Effects        what each request and each message does, on every branch: first by the functions
--                  of the model (Creation, Release, CapacityUpdate, Reconciliation), and from that in
--                  figures (Booked, Freed, Limits, Replaced)
--   Accounts       what the ACTIVE reservations of a program add up to: the loops over a snapshot
--                  (Items, Walk, Steps, Loop, Missing, Snapshot), and each request and message
--   Tests          runs of the model, and the theorems at concrete inputs
--
-- A function has the name of its source in snake case. Where the source continues after an early
-- return or a test, the continuation is a function of its own, named for what it does. Amounts are
-- integers, not the decimal texts in which the rows of the code carry them. A statement's guard,
-- its CASE expressions, the unique indexes and CHECK constraints of prisma/schema.prisma and its
-- migration, the range of a `bigint` column (but for a program's own counter of versions and for
-- the offsets, which Kafka keeps in 64 bits) and the three characters of a currency are part of the
-- statement; a violation is an exception. An id that a client sends is cast to Postgres' own
-- spelling of it (`as_uuid`) where it enters a transaction; the ids of rows are in that spelling.
-- The currency of a ledger entry is kept as given. A number of a message is an integer, a fraction,
-- an infinity or NaN, and `BigInt` of a number that is no integer throws. All loops of the code run
-- over lists, so that the model needs no fuel.
--
-- Parameters of the model, as the code is not in the repository: decimal.js (`DecimalJs`, with its
-- documented arithmetic as `DecimalLaws`), `JSON.parse` and SHA-256 (`Codec`), `Date.parse` and the
-- conversion to a `smallint` column (`Platform`), `gen_random_uuid`, the clock and Kafka's answer
-- to the commit of an offset (`Env`), the verification of a token by @nestjs/jwt (`JwtService`),
-- and the pipes of NestJS and class-validator (`Pipes`).
--
-- Transactions run one after another: the code locks the row of the program or of the reservation
-- that it reads (`FOR UPDATE`) to the end of its transaction. Reads outside a transaction (rates,
-- currencies, `findById`, `getAvailability`) see the state between transactions. Log lines are left
-- out, and so is what a success answers beside its body.
--
-- Not modelled: the matching of urls to routes and the start of the server, which are NestJS; the
-- connection to Kafka and to Postgres; the Joi schema of src/config; the scripts and the tests.

pub mod Http
pub mod Logger
pub mod Auth
pub mod Base
pub mod Errors
pub mod Store
pub mod Programs
pub mod Fx
pub mod Audit
pub mod Reservations
pub mod Treasury
pub mod System
pub mod Effects
pub mod Accounts
mod Tests
