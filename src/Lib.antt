-- ===== src/Lib.antt =====
-- psychron records the climate of rooms. Nodes (an ESP32 and a phone) send JSON messages over MQTT;
-- the back end validates each message, decides which instant it belongs to, and stores it once. A
-- timer evaluates alert rules on what is stored. This library models the Python of
-- backend/src/psychron that does so.
--
-- A message arrives at `Ingestor.handle` (ingest.py). The topic chooses the contract; `parse` of
-- domain/telemetry.py (v1), domain/samples.py or domain/events.py (v2) reads the payload; the
-- device of the topic must be that of the payload; `resolve` places the message by the timestamp
-- rule and the boot anchors; the repository (adapters/postgres.py) stores it or passes over it.
-- `Alerter.tick` (alerting.py) asks the rules of domain/alerts.py for transitions, has
-- adapters/alerts_pg.py store them, and announces those that were stored. People sign in by the
-- routes of api/routes_auth.py, which adapters/identity_pg.py serves with the rules of
-- domain/identity.py; what is stored is read by adapters/queries.py behind the routes of
-- api/app.py, whose guard is api/auth.py.
--
-- Files, each with its children:
--   Base      names of the libraries, Boolean tests, lists, integers, association lists
--   PyFloat   Python's float, as an interface
--   Json      what json.loads returns; the decoder is a parameter
--   Raise     exceptions as values
--   Instant   datetime, as microseconds since year 1; OverflowError outside the years 1 to 9999
--   Clock     domain/telemetry.py: quality bits, BootAnchors, resolve_instant
--   Fields    the field readers that the contracts share
--   Telemetry domain/telemetry.py: contract v1
--   Schema    domain/samples.py: Spec, check_value, check_group
--   Quantities, Samples  domain/samples.py: SCHEMA, Measurements, parse, resolve
--   Events    domain/events.py
--   Ports     ports.py: a port is a record of operations on the adapter's state
--   Topics    the string methods that ingest.py applies to topics
--   Database  adapters/postgres.py: tables as lists of rows
--   Ingest    ingest.py, over any repository that offers the port
--   Alerts    domain/alerts.py
--   Alerting  alerting.py and adapters/alerts_pg.py
--   Identity  domain/identity.py: lockouts, invitations
--   Accounts  adapters/identity_pg.py: sign-in, recovery codes; Gate: sessions, invitations
--   Weather   domain/weather.py: the outlook; Pressure: the pressure formulas
--   SignIn    api/routes_auth.py: the sign-in routes; Serve: any history of requests
--   Admin     admin.py: the owner's tools
--   Sorting   ORDER BY
--   Queries   adapters/queries.py: the readings; Phone: samples and events; Health: statistics and
--             gaps
--   Psychrometrics  domain/psychrometrics.py, over an arithmetic of floats that may raise
--   App       api/app.py: ranges, quality flags, the sockets' guard; Routes, Export, Live, Current
--   Auth      api/auth.py: the guard of the routes
--   Fixture   the concrete parameters and messages of the tests
--
-- State is passed explicitly: a handler takes the ingestor and returns it as the call leaves it,
-- beside the exception that escapes, if one does. Nothing runs on fuel: every loop of the source is
-- over a list. Names and messages correspond one to one to the source's; a dict is an association
-- list, a table is a list of rows with the newest first.
--
-- Parameters stand for what the repository does not hold: the JSON decoder, the float, int() and
-- str() of a JSON value, what PostgreSQL's constraints refuse, the formatted texts of an alert,
-- the hashes and the random tokens, the scores of the forecaster, the arithmetic of floats, what
-- PostgreSQL computes of the values of a column, the continuous aggregates of TimescaleDB, and
-- datetime.fromisoformat.
-- Not modelled: the wording of messages, logging, the MQTT client, the command line, the simulator,
-- provisioning, the encoding of CSV and spreadsheets, the boots and rejected messages that the
-- device route lists, and the code in other languages.
pub mod Base
pub mod PyFloat
pub mod Json
pub mod Queries
pub mod Raise
pub mod Sorting
pub mod Instant
pub mod Clock
pub mod Fields
pub mod Telemetry
pub mod Schema
pub mod Quantities
pub mod Samples
pub mod Events
pub mod Ports
pub mod Psychrometrics
pub mod Topics
pub mod Database
pub mod Ingest
pub mod Identity
pub mod Accounts
pub mod Weather
pub mod App
pub mod Auth
pub mod SignIn
pub mod Fixture
pub mod Alerts
pub mod Admin
pub mod Alerting
