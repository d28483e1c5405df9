-- ===== src/Lib.antt =====
-- A verification library for NetPulse, a monitor of a local network. Agents measure the network and
-- keep their events in a local outbox until Kafka acknowledges them; services store the events in
-- PostgreSQL; the incident classifier reads summaries of them in cycles, raises and resolves
-- incidents and publishes each change of one; the query API lists the daily reliability figures.
--
-- Base: the names that are passed on, and lemmas on lists, texts, dicts, sorting and an interface
-- of numbers (Base.Number), which stands for Python's floats: an order and a few operations with
-- the laws that rounding keeps. Times count microseconds in the classifier and are such numbers in
-- the agent.
--
-- Classifier: services/incident-classifier/src/netpulse_classifier. Models and Config follow
-- models.py and config.py; Engine (with Rows and Build) is ClassificationEngine.classify and its
-- helpers; Lifecycle is ClassificationEngine.transition; Event is IncidentClassifierService._event
-- with the field checks and the validator of packages/contracts/src/netpulse_contracts/models.py;
-- Store is the repository on its two tables with the constraints of migration 0004, a method being
-- one transaction; Service is evaluate_once and publish_pending, computations on a world of the
-- database, the acknowledged events and a counter of the publications, whose answers are a
-- parameter. publish_pending loops until no event is pending: the model runs it for a number of
-- rounds, and one round more than there are unpublished events is enough where the broker
-- acknowledges. The children of these modules hold the theorems.
--
-- Agent: services/network-agent/src/netpulse_agent. Outbox is outbox.py, one function per method;
-- Outbox.Safety runs its methods in any order; Publisher is publish_ready of publisher.py, where
-- what the Kafka producer does with each record is a parameter: the exception of produce, the
-- callbacks of the polls before the deadline, the clock and the random value.
--
-- Query: services/query-api/src/netpulse_query_api. Models, Cursor and Repository follow the files
-- of those names. Base64, the digest of the filters, json.loads and the reading of a version 1 key
-- are the fields of the record Codec. The order of texts in the database is a parameter. Api is the
-- choice of the next cursor by the route of api.py, and a client that follows the cursors for a
-- number of requests; one request more than there are matching rows is enough.
--
-- Ingestor: services/event-ingestor/src/netpulse_ingestion. Model is the repository on its tables,
-- Processor follows processor.py and validate_event of packages/contracts, Consumer the loop of
-- consumer.py over the messages that Kafka delivers, which are an arbitrary list; its commits and
-- seeks are recorded as calls, and what the broker makes of them is outside.
--
-- Analytics: services/analytics/src/netpulse_analytics and deployment/airflow/dags. Sources is the
-- daily figures as both repositories select them, Warehouse the tables of migration 0005 with their
-- constraints, Refresh the transaction of repository.py, whose facts Query lists through the view
-- of Reporting. Reconcile and Reporting are the checks of orchestration/repository.py, Quality and
-- Selection the files of those names, Tableau the datasets of days and agents of the export,
-- Workflow the tasks of the Airflow DAG on a resolved range: the sources may change between the
-- tasks, and the attempts of the refresh are a list. A date is its ordinal and a time counts
-- microseconds from the start of the year 1, both in UTC. SUM adds the values in the order of the
-- list, so that the lists of the sources stand in the order in which a statement reads them, and
-- two statements over the same rows may have two orders; the quotients of the view, what another
-- session does with the advisory lock, and the conversions of the standard library are parameters.
--
-- Tests: the theorems at concrete inputs, with numbers in hundredths and a base64 in full.
--
-- Not modelled: load_snapshot of the classifier, which the database evaluates; reading and checking
-- of the environment; the publishers of the classifier and of the ingestor, whose calls return or
-- raise by a parameter; the error of the query API on a row of the view that its model refuses;
-- metrics, logs and threads; the agent's collectors, the stream processor, the rest of the export
-- to Tableau, the simulator, the reading of HTTP queries, and Airflow's scheduling and
-- notifications.
pub mod Base
pub mod Classifier
pub mod Agent
pub mod Query
pub mod Ingestor
pub mod Analytics
pub mod Tests
