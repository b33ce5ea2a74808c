-- ===== src/Lib.antt =====
-- The crawler of the repository: it takes the active applications, fetches the details and the
-- reviews of each from the store through proxies, publishes them, and records each task's life in a
-- database; the analysis of network captures; and the ingestion of the events of both. The parts
-- and the files that model them (paths of Crawler are below src/sahabino/crawler, those of Network
-- and Ingestion below src/sahabino):
--
-- - Crawler/Errors, Crawler/Exceptions: domain/errors.py, the status classification of
--   infrastructure/http_errors.py, and exceptions as values.
-- - Crawler/Circuit: the circuit breaker, infrastructure/resilience/circuit_breaker.py; a call gets
--   the token of its generation from `before_call` and reports with it.
-- - Crawler/RateLimiter: infrastructure/resilience/token_bucket.py.
-- - Crawler/Proxy, Crawler/Proxy/Pool, Crawler/Providers: endpoints, leases, the shared pool and the
--   two providers, infrastructure/proxy. Leases are objects shared by pool and clients, so the pool
--   has a store of them and a lease is an index into it.
-- - Crawler/Lifecycle: the rows of runs and tasks and their transitions, domain/results.py and
--   infrastructure/persistence.
-- - Crawler/Policies: application/policies/retry.py and adapter.py, and
--   infrastructure/adapters/classifier.py.
-- - Crawler/World: the state that the client and the commands share, the surroundings that answer
--   (clocks, commits, adapters, publisher), and the actions over both; World/Frames and
--   World/Outcomes are the rules by which statements about the database are proved of actions.
-- - Crawler/Egress: application/policies/network.py over any provider.
-- - Crawler/Client: application/client.py and the retry loop of application/policies/retry.py.
-- - Crawler/Tasks: the command of one application, application/tasks.py.
-- - Crawler/Executor: one crawl, application/executor.py.
-- - Crawler/Reviews: the batch check of infrastructure/adapters/common.py, over any normalizer.
-- - Network/Packets, Network/Stats, Network/Tcp, Network/Quic, Network/Udp, Network/Aggregate:
--   network/metrics.py, from packets to the metrics of an event, with the models of
--   messaging/network_events.py. Network/Tcp has children for the handshake, the zero-window
--   stalls, the connections and the metrics; Network/Aggregate has them for its parts.
-- - Network/Capture: the tables of captures, network/models.py and network/repository.py, with
--   Capture/Service and Capture/Completion (network/service.py), Capture/Operations
--   (network/operations.py), and Capture/Attempts and Capture/Worker (network/worker.py).
-- - Ingestion: Ingestion/Tables and Ingestion/Repository (ingestion/models.py, repository.py and
--   handlers.py), Ingestion/Worker (ingestion/worker.py).
-- - Common: the shared library names, Boolean tests, lists and dictionaries over native numbers.
--
-- The command opens a client, runs both tasks through it and closes it. The client asks the
-- breaker, runs the adapter in the retry loop, and on each failure lets the network policy act on
-- its lease; hooks record each attempt and each retry in the database. Whatever comes out, the
-- command marks the tasks.
--
-- A capture is registered, uploaded, analyzed by a worker that claims it, and may fail, expire, be
-- retried and be cleaned up; calls of the service and the transactions of workers interleave, as
-- Network/Capture/Reachable says: the transactions of reconciliation and retry, which take no lock
-- in the code, are one step each, while a completion is several. The worker publishes the metrics,
-- and the ingestion claims each event and writes its rows in one transaction, before it commits the
-- offset; that commit may fail, and the message then comes again.
--
-- Numbers: seconds are clock ticks and tokens of the bucket are counted in ticks, so arithmetic is
-- exact where the source has floats; a quotient is kept as its two numbers, and times of packets
-- count microseconds. Loops are structural, but for the waiting loop of the rate limiter, which has
-- fuel: two rounds are enough for a thread alone, and for one among others no bound is claimed,
-- since the float waits of the source have no least length. The loop of the retry library is a
-- parameter, `Client.Retrying`, with the law that its documentation gives; Client/Loop has a loop
-- that meets it.
--
-- Not modelled: the adapters, the transport, the broker, the registry and SQL themselves, which are
-- parameters or answers of the surroundings; logging; message texts and their redaction; proxy
-- URLs; the interleaving of commands in the thread pool; the run of tshark and the parsing of its
-- output; JSON and its validation; the routes, storage clients and settings. The other parts of the
-- repository (messaging, app_registry, bi, deploy, sentiment) are not modelled.
pub mod Common
pub mod Crawler
pub mod Network
pub mod Ingestion
