-- ===== src/Lib.antt =====
-- CHEN: a Python package (src/chen) that runs a prompt through several small language models
-- ("experts"), picked by a router, sharing a memory and handing over text or a KV cache. Around the
-- models it has an HTTP server with API keys and rate limits, circuit breakers, an audit log, and an
-- encryption layer with a keystore.
--
-- The parts and the files that model them:
--
-- - Breaker: the circuit breaker and its registry, src/chen/observability/circuit_breaker.py. A
--   breaker is a record; `enter` and `leave` are `__enter__` and `__exit__`; `step` is one call of
--   one of the threads that share it, and `run` a sequence of them. A reading of the clock is an
--   argument.
-- - Server.Auth and Server.RateLimit: `APIKeyStore`, `AuthMiddleware` and `RateLimitMiddleware` of
--   src/chen/server/auth.py. A request is a `Scope`; the rate limit reads the key that the
--   authentication has put into it. Texts that are taken apart are lists of codes. Times are in
--   microseconds.
-- - Server.App: the two of them around the routes, src/chen/server/app.py.
-- - Audit: src/chen/observability/audit.py. The log is the list of the lines of its file.
-- - Security: src/chen/security. Config, Crypto, Stream, Keys and Backends are config.py, crypto.py,
--   stream.py, keys.py and backends.py. What `cryptography`, `base64`, UTF-8 and the operating
--   system do is the parameter `Primitives`; random bytes are arguments. Each call returns the
--   encryptor or the decryptor with its cache of session keys. The keystore is a dictionary from key
--   ids to metadata.
-- - Core.Expert: `KVCache`, the protocol of a backend and `Expert.invoke`, from
--   src/chen/core/kv_cache.py, src/chen/backends/base.py and src/chen/core/expert.py. A backend is a
--   parameter, whose methods may raise.
-- - Core.Metrics: `AggregateMetrics` and the cost model, src/chen/core/pipeline.py and
--   src/chen/core/config.py, in exact numbers.
-- - Core.Cascade: the first phase, src/chen/phases/phase1_cascade.py: experts one after the other,
--   each with the output of the one before, over the shared memory.
-- - Core.Pipeline: what the pipelines share, src/chen/core/pipeline.py.
-- - Core.Handoff: the second and the third phase, src/chen/phases/phase2_kv_pass.py and
--   src/chen/phases/phase3_routing.py. What comes after the first expert is the same code in both
--   and is modelled once; KvPass and Routed are their first rounds and their runs.
-- - Core.Mock: the deterministic backend, src/chen/backends/mock.py, an instance of the protocol.
-- - Core.Adapters: the backends that run a model, src/chen/backends/hf.py, vllm.py and llama_cpp.py. A
--   backend is a record with its model, if that is loaded, and its methods give it back changed. The
--   parent has what the three share of taking caches over; Vllm, LlamaCpp and HuggingFace are the
--   three files, Arrays and Axes the layout of their arrays.
-- - Core.Registry: src/chen/backends/registry.py, and Core.Carbon: the scheduler of
--   src/chen/core/carbon.py with its cache; each call takes the readings of the clock and the API's
--   answer.
-- - Core.Router: src/chen/core/router.py: the selection of the three routers over any scores, with
--   Scores (the features of a prompt and the logistic scores), Prototypes (the state of the cosine
--   router) and Hybrid.
-- - Memory: src/chen/core/memory.py, and Memory.Tenants: src/chen/persistence/tenant_memory.py, which
--   keeps one such memory for each tenant. Their entries are values. The code keeps the objects that
--   it is given and changes them in place; Memory.Shared has `write` over objects at addresses, which
--   `write` over values stands for where no object is written twice, as in the pipelines, which make a
--   new entry for every write. Objects that the caller writes to two memories are not in Memory.Tenants.
-- - Store: the run store over SQLite, src/chen/persistence/run_store.py, and Store.Postgres: the one
--   over PostgreSQL, src/chen/persistence/pg_store.py. A table is the list of its rows, and an SQL
--   statement what it does to them; the order of rows of one time is any.
-- - Server.Garage, Server.Messages and Server.Routes: src/chen/server/routes.py: the experts and the
--   pipeline of a request, the bodies of requests and responses, and the handlers, which go from
--   the state that they share to a response and the state after it. `hash_config` is that of
--   src/chen/reproducibility.
-- - Bench: the KPIs, the graders and the runs of benchmarks, src/chen/benchmarks/kpis.py, tasks.py
--   and runner.py, with exact ratios in place of floats. What str, re and float do with a text are
--   the fields of Strings.
-- - Common: numbers, lists, dictionaries with their order, results and Python's stable sort.
--
-- Fuel and bounds. The loops of a stream run over offsets: `encrypt_loop`, `blocks_loop` and
-- `iter_loop` take the
-- length of the data as fuel, and each round moves on by a block of at least one byte;
-- `deserialize_loop` takes the number of bytes, and each round uses up at least five. The lengths in
-- a serialized stream are 32-bit and those of a key id 8-bit, with the errors that `struct.pack` and
-- `bytes` raise beyond. In the mock backend `fold_chunks` takes the number of bytes plus one, and each
-- round uses up eight; the cosine router's embedding has a round for every eight code points, as the
-- code does; a number has at most itself plus one decimal digits. All other recursion is
-- on lists.
--
-- Parameters that stand for code outside the repository: `Primitives` (AES-GCM, HKDF, base64,
-- UTF-8), `Codec` in Audit (SHA-256 and JSON), `Embedder` in Memory (the digest of an id, the
-- embedding and the similarity), `Backend` in Core.Expert (the models), `Hashes` in Core.Mock
-- (BLAKE2b and `repr`), `VllmLibrary`, `LlamaLibrary` and `HfLibrary` in Core.Adapters (the
-- libraries that run the models), `Json`, `Newest`, `Columns` and `Connect` in Store (JSON, ORDER
-- BY, the types of PostgreSQL's columns and asyncpg), `Outside` and `Formats` in Server (the other
-- backends, the scores of the router, the clock, floats and SHA-256), `Floats` in Core.Carbon and
-- Core.Router, `Prompts` and `Arrays` in Core.Router (regular expressions and numpy), and the
-- order of a Python set. Their laws are fields of these records, and the Examples modules give
-- instances of each.
--
-- Not modelled: the keywords for sampling of the backends; logging, metrics and tracing; the texts
-- of the tasks of the benchmarks; the rest of the FastAPI application and the command line; the
-- migration of the SQLite file; log lines and file permissions in the parts that are. Scores,
-- confidences and costs are numbers or abstract.
pub mod Common
pub mod Breaker
pub mod Server
pub mod Audit
pub mod Security
pub mod Core
pub mod Memory
pub mod Store
pub mod Bench
