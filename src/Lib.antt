-- ===== src/Lib.antt =====
-- Verification of the item catalogue: cached reads, the ingestion of snapshots, and the routes.
--
-- The program serves a catalogue of game items. A request is given an identifier and logged by the
-- middleware, let in with an API key that Clerk verifies and that has the scope of the route, and
-- answered by `ItemService`, which reads through a Redis cache and asks an item repository on a
-- miss. A snapshot is read from a file by the ingestion command, validated, and published by
-- `IngestionService` in one database transaction; afterwards the cache is invalidated by an
-- increment of its generation, which is a part of every key. The settings say which database and
-- Redis either program may talk to.
--
--   Prelude, Prelude/*        text as code points, native numbers, lists, options, numerals
--   Errors                    the exceptions as values, and the classes that `except` names
--   Exec, Exec/Returns        code that changes a world and may raise
--   Value                     JSON values
--   Core/Exceptions           app/core/exceptions.py: the handlers
--   Core/Config/*             app/core/config.py: DatabaseUrl and RedisUrl are the validators of the
--                             two URLs, Settings the three classes, Targets and Runtime what
--                             accepted settings guarantee
--   Core/Clients              app/core/database.py and app/core/redis.py: how clients are made
--   Core/Logging/*            app/core/logging.py: Redaction is the pattern of API keys, Middleware
--                             is `RequestLoggingMiddleware`
--   Core/Log, Core/Platform   the logger; str.isspace, str.lower, str.strip and urllib
--   Auth/*                    app/auth: the Clerk verifier, principals and scopes
--   Health/*                  app/health: the probes and the readiness route
--   Items/Schemas             app/items/schemas.py
--   Items/Cache/*             app/items/cache.py: Client (constants, clients, constructor),
--                             Generation (`_generation`, `_parse_generation`, `invalidate`), Redis
--                             (`_get` is get_entry, `_set` is set_entry, and the operations);
--                             Contract states what Redis does between two calls
--   Items/Models              app/items/models.py
--   Items/Repository*         app/items/repository.py: the records and the protocol; Sql is
--                             `SqlAlchemyItemRepository`, whose Contract states LIKE and the queries
--   Items/Service/*           app/items/service.py; Cached is the service over `RedisItemCache`
--   Items/Router/*            app/items/router.py, app/items/dependencies.py and `get_session`
--   Ingestion/Schemas/*       app/ingestion/schemas.py: `model_validate` over JSON values
--   Ingestion/Repository/*    app/ingestion/repository.py; Contract states what PostgreSQL does
--   Ingestion/Service/*       app/ingestion/service.py; Contract states what a session does
--   Ingestion/Loader/*        app/ingestion/loader.py; Contract states what the descriptors do
--   Main/*                    app/main.py: the lifespan
--   Scripts/Ingest/*          scripts/ingest.py: Report is the text of a validation error
--   Scripts/TestDatabase      scripts/validate_test_database.py
--
-- A coroutine is a function from a world to an outcome and a world; the world is a parameter, so
-- other processes may change it between the calls. Redis, PostgreSQL, sessions, clocks, the module
-- os, asyncio's timeout and gather, argparse, pydantic's JSON and settings sources, hashlib,
-- urlsplit, parse_qs, ip_address, Starlette's headers and the Unicode tables are parameters, and
-- what the theorems need of them are the fields of the records in the Contract modules and beside
-- the theorems. The application under the middleware is a tree of its effects, so that what it sends
-- passes through the middleware's `send`. A datetime is a number of microseconds, and so are the
-- seconds of a float setting and the milliseconds of a log line. The native numbers have no bound,
-- and the 64-bit bound of a generation is checked by the code itself. Two recursions are bounded: a
-- numeral of n is printed with n + 1 rounds, which is more than it has digits, and a list of n items
-- has (n + 999) / 1000 batches, which is the length of the source's range.
--
-- Not modelled: the wiring of FastAPI and its OpenAPI schema in app/main.py, the declarations of
-- SQLAlchemy's tables and the migrations. FastAPI's order of dependencies is taken as the order in
-- which the routes here are composed.
pub mod Prelude
pub mod Scripts
pub mod Main
pub mod Errors
pub mod Exec
pub mod Value
pub mod Core
pub mod Items
pub mod Ingestion
pub mod Auth
pub mod Health
