-- ===== src/Lib.antt =====
-- A verification library for the usage metering and billing engine: a service that records billable
-- usage of tenants exactly once, refuses it past the limits of their plans, prices it, and follows
-- the tenants' subscriptions at Stripe.
--
-- The program's parts. `app` (app/main.py) passes each request to the endpoint of its path, over a
-- session of `get_db` (app/db/session.py), and turns what it ends with into a response. A tenant is
-- created with its first subscription by app/routers/tenants.py. A request to record usage reaches
-- the endpoint of app/routers/usage.py, which passes it to `MeteringEngine.record_usage`
-- (app/services/metering.py) and turns its outcome into a status code. It answers a known
-- idempotency key with the stored response; otherwise it asks `QuotaEnforcer.check_and_reserve`
-- (app/services/quota.py), prices the usage with `PricingCalculator` (app/services/pricing.py) and
-- writes the event and the response in one transaction. Stripe's events reach
-- app/routers/webhooks.py, which has their signature verified, and then
-- `StripeWebhookHandler.handle_event` (app/services/stripe_webhooks.py), which marks the event's
-- id, applies the handler of its type and commits both together. All share the tables of
-- app/models/models.py, which alembic/versions/0001_initial_schema.py creates with the two plans.
--
-- Which file models what:
--   Prelude          Boolean tests on numbers, texts, integers, lists.
--   Models.Enums     the enumerations of app/models/models.py.
--   Models.Rows      its classes, one record each, and the JSON bodies that are stored.
--   Models.Uuid      its column type `UUID`.
--   Schemas          the payloads, responses and error details of app/schemas/schemas.py.
--   Config           `Settings` of app/core/config.py.
--   Clock            `_as_aware_utc` of app/services/quota.py, `total_seconds`, and the sum of an
--                    instant and thirty days.
--   Pricing          app/services/pricing.py.
--   Store.Schema     the tables, and what their constraints in app/models/models.py and
--                    alembic/versions/0001_initial_schema.py ask of each change.
--   Store.Database   the session as an interface, its contract `IsLawful`, and `contract`, the
--                    contract as a session of its own.
--   Store.Action     requests as state passing over a session and the draws from outside (clock,
--                    `uuid4`, sequences), with exceptions as values; `>>=` is the sequence of
--                    statements, `try_except` the `try` statement.
--   Store.Request    `get_db` of app/db/session.py.
--   Store.Scalar     `scalar_one_or_none`.
--   Store.Simulation, Store.ReadsOnly, Store.Preserves, Store.Kept, Store.Bystander
--                    rules by which an action over any lawful session is followed over `contract`,
--                    or is seen to change nothing, to keep a property of the session, or to leave
--                    the usage as it is.
--   Migration        alembic/versions/0001_initial_schema.py: Defs has its ENUM labels and the plans
--                    that it inserts; Catalog what PostgreSQL does with a DDL statement (`execute`,
--                    no code of the repository); Statements those of `upgrade` and `downgrade`;
--                    Mapped and Metadata the schema that the classes of app/models/models.py
--                    declare. Seeds follows a new tenant over the inserted plans.
--   Quota            Defs has `QuotaEnforcer`: `latest_active` is `_get_locked_active_subscription`'s
--                    statement, `period_usage` that of `_sum_period_usage`; Decision describes
--                    `check_and_reserve` independently of its code.
--   Metering         Defs has `MeteringEngine`; `attempt` is the `try` statement of `record_usage`
--                    and `recover` its `except` clauses. Spec describes every way it ends; Account
--                    has its specification without tables; Serving has sequences of requests, one
--                    after the other.
--   Webhooks         Events has what the handlers read of a `stripe.Event`, where each key may be
--                    missing or null; Defs has `StripeWebhookHandler`, `dispatch` being `_DISPATCH`
--                    and `apply_event` what `handle_event` does with a new event.
--   Sessions         Defs has `record_usage` cut at the points between its statements (`proceed`), and
--                    the steps of several sessions, whose requests interleave at those points
--                    under the row lock of `with_for_update`.
--   Service          Defs has creations of tenants and deliveries of events among the steps of
--                    Sessions: `handle_event` is cut after `_mark_processed_or_skip` (`deliver`),
--                    whose flushed id holds up a flush of the same id in another session
--                    (`IsKeyFree`).
--   Routers          Defs has the endpoints: `post_usage` is `record_usage` of app/routers/usage.py,
--                    `get_quota_status` that of app/routers/quota.py; Tenants has those of
--                    app/routers/tenants.py (`read_tenant` is `get_tenant`), Stripe that of
--                    app/routers/webhooks.py; Creation and Onboarding follow a new tenant to its
--                    first checks, Renewal a checkout to the checks after it.
--   App              Defs has app/main.py: `serve` is one request to the application, `serve_all`
--                    requests one after the other; Fresh and Usage follow a request for usage
--                    and its retries.
--   Tests            the theorems at concrete inputs, and runs of the definitions.
--
-- How the model stands to the code:
--   An instant is the number of microseconds since 0001-01-01 00:00 UTC. A UUID and an integer key
--   are only compared, so both are numbers. Python's integers are the natural numbers where the
--   code or a constraint excludes negative ones, and also for the limits and the rates of
--   `Settings`, which are plain integers in app/core/config.py: a negative rate is outside the
--   model. The widths and lengths of the columns are tests of the INSERT (spaces past a column's
--   length, which PostgreSQL cuts off, do not fit here). An ENUM column takes every member here,
--   although the types of the migration have other labels than the names that the models send.
--   `total_seconds` is a float in Python, exact for differences below 285 years.
--   SQLAlchemy, the database, FastAPI and Stripe's library are not in the repository. A `Request`
--   is what FastAPI has parsed, with the text of a `tenant_id` as the UUID that it stands for or
--   none, and `construct_event` is a parameter. The session is a parameter, and `IsLawful` states
--   what the code relies on: statements see the session's flushed changes, changes wait for a
--   flush or commit, a refused one is raised and leaves the session to be rolled back, a rollback
--   restores the committed tables. `FOR UPDATE` orders sessions among themselves; a session that
--   runs alone reads as without it. The code leaves open which of two ACTIVE subscriptions with
--   the same end `ORDER BY … LIMIT 1` selects: `later_of` takes the one that stands first, the
--   newer one. In Sessions each statement sees what is committed when it runs (PostgreSQL's READ
--   COMMITTED), and waits for a row's lock until the session that holds it commits or rolls back;
--   a write with its commit is one step, as a row of the same key in an open transaction holds up
--   the INSERT until that transaction ends. In Service a flushed event id holds up a flush of the
--   same id in the same way, and the step that commits a handler's changes waits while a request
--   holds the lock of a row that it updates (`IsRowFree`); what a handler reads is read in that
--   step, so two handlers do not interleave.
--   The clock, `uuid4`, sequences and the driver's way to return an instant are the fields of
--   `Env`.
--   A default of a column is drawn where the row is added or flushed.
--   A catalog has the extensions, ENUM types, tables and indexes of a database. Whether SQLAlchemy
--   sends an unchecked CREATE TYPE for the ENUM columns of a new table, as it documents for types
--   with `create_type=True` like those of the migration, is the parameter `emits`.
--   No definition runs on fuel: every loop is a recursion over the rows of a table.
--
-- Not modelled: the texts of error messages, of which clients read the code and the numbers;
-- FastAPI's parsing of paths, headers and JSON; logging; the engine and its pool in
-- app/db/session.py; the environment that overrides a setting (a theorem takes any `Settings` or
-- names the defaults); Alembic's runner alembic/env.py; the server defaults of the migration, as
-- the program gives every value; and the relationships of app/models/models.py, which no code
-- reads.
pub mod Prelude
pub mod Models
pub mod Schemas
pub mod Config
pub mod Pricing
pub mod Clock
pub mod Store
pub mod Migration
pub mod Quota
pub mod Metering
pub mod Webhooks
pub mod Sessions
pub mod Service
pub mod Routers
pub mod App
mod Tests
