-- ===== src/Lib.antt =====
-- ScrapeGrid is a simulator of a crawler: one scraper that works alone races a fleet of workers, in
-- threads over made-up URLs, and a dashboard shows the race. algorithms/ holds the parts of
-- distributed systems that the fleet is built from; simulation.py wires them up; utils/ holds the log
-- and the URL generator.
--
-- The parts and their files:
--  - algorithms/raft.py, `RaftNode`: Raft has the node and each method; Raft/System lets the threads
--    of a cluster interleave, one lock block or one call on a peer at a time, and the calls of
--    `append_log`, which takes no lock, one read or write at a time. When a thread takes its
--    turn is left open, so its schedules include all that the timers allow.
--  - algorithms/clocks.py: Clocks/Lamport is `LamportClock`, Clocks/Vector is `VectorClock`.
--  - algorithms/token_bucket.py, `TokenBucket`: TokenBucket.
--  - algorithms/circuit_breaker.py, `CircuitBreaker`: CircuitBreaker.
--  - algorithms/consistent_hash.py, `ConsistentHashRing`: HashRing.
--  - algorithms/bloom_filter.py, `BloomFilter`: BloomFilter, on the bytes of the array.
--  - algorithms/gossip.py, `GossipProtocol`: Gossip.
--  - utils/logger.py, `EventLog`: EventLog.
--  - utils/url_generator.py: UrlGenerator, with UrlGenerator/Template for `str.format`.
--  - simulation.py: Simulation has its helpers. Simulation/Worker is `DistributedWorker`, with its work
--    stealing in Worker/Steal and a turn of `_run` in Worker/Turn, over the data that the workers of a
--    fleet share, `World`. Simulation/Delay has the divisions by the speed and `time.sleep`.
--    Simulation/Scraper is `SingleNodeScraper`, Simulation/MapReduce
--    `run_mapreduce`, Simulation/Membership the engine's own `GossipProtocol`, Simulation/Prepass the
--    loop that drops duplicates from the pool. Simulation/Fleet is `DistributedFleet`:
--    Fleet/Assignment deals URLs and workers out to the shards, Fleet/Lifecycle spawns and kills
--    workers, Fleet/Autoscale is a turn of `_autoscale_loop`, Fleet/Run lets the threads of a fleet
--    take their turns in any order, Fleet/Snapshot has the reports. Simulation/Engine is
--    `SimulationEngine`: Engine/Boot its `__init__`, Engine/Control the controls and the engine's own
--    threads, Engine/State `get_state`, Engine/Final calls and turns in any order.
--  - Files below these with other names hold the lemmas and theorems on their definitions, those named
--    Examples concrete runs.
-- Each operation is a function of the state that it is called on and returns the state it leaves; a
-- method that can raise gives a Result. Operations keep the names of the program, without a leading
-- underscore. Dict has dictionaries, Text has strings as lists of code points, Result the exceptions.
--
-- Parameters stand for what is not in the repository: floats with the laws of their order and their
-- rounding (Floats), the digest MD5, readings of the clock, random draws, the rounding and formatting
-- of numbers. Loops are recursion on their list or on the count of rounds left; `decimal` has as much
-- fuel as the number has units, and each round takes a digit off.
--
-- The threads of a fleet interleave by steps: a worker's turn up to its sleep over a URL, the rest of
-- that turn, a turn of another thread, a start or a stop. What one step reads, no other thread changes
-- before it ends. Whole turns of the single scraper come at any time, also when it has been told to
-- stop. `pad` in UrlGenerator has fuel, since the loop that it stands for need not end.
--
-- Not modelled: the contents of a page, which `fake_page_content` draws; the lengths of sleeps; the
-- module variable that holds the engine; dashboard.py, which presents the reports.
pub mod Prelude
pub mod Result
pub mod Floats
pub mod TokenBucket
pub mod CircuitBreaker
pub mod Raft
pub mod Text
pub mod HashRing
pub mod BloomFilter
pub mod Dict
pub mod EventLog
pub mod Gossip
pub mod Simulation
pub mod Clocks
pub mod UrlGenerator
