-- ===== src/Lib.antt =====
-- The engine of flux, a server of a language model that runs on the CPU: how requests wait, are
-- admitted into a batch, reserve KV blocks, share stored prefixes, and end, and the server around it.
--
-- A request comes in at an endpoint, which checks the body, the rate limit and the bounds, and submits a
-- sequence to the scheduler's queue. The worker's loop asks the scheduler to admit waiting sequences,
-- which reserves blocks of the pool, with the help of a stored prefix where there is one. The worker prefills what was admitted, stores the new prefixes, decodes all that runs as one
-- batch, and ends a sequence when it is finished, aborted or failed: its blocks go back to the pool and
-- its client is woken.
--
-- Which file models which part:
-- Prelude, with Tests, Lists, Text and Dict: Boolean tests, lists, texts as code points and Python's dict
--   over the native numbers.
-- Config: src/flux/config.py. Serving: src/flux/engine/serving.py, and build_engine of
--   src/flux/server/app.py. App: the state, the start and the end of that file's application; App.Life is
--   the server from its start on. Schemas: src/flux/server/schemas.py; what a body must be is said again,
--   without the code's functions, in Schemas.Texts and Schemas.Valid.
-- Completions: the two endpoints of src/flux/server/routes_openai.py up to the answer or the wait, over an
--   interface `Host` for what they call. Streaming: the event streams of the same file and the chunks of
--   src/flux/server/sse.py. A generator is the list of its events.
-- Admin: src/flux/server/routes_admin.py. Control: src/flux/control.py. ControlPlane:
--   src/flux/redis_client.py over an interface `Redis`. Metrics: src/flux/metrics/prometheus.py.
-- Runtime: src/flux/runtime.py, src/flux/device.py and src/flux/engine/model_loader.py, as far as they decide.
-- FakeLm: src/flux/engine/fake_lm.py.
-- Kv: src/flux/engine/kv_utils.py. A cache is a list of layers, a layer two lists of positions.
-- Sequence: src/flux/engine/sequence.py and src/flux/engine/types.py. Dataclasses are records.
-- Pool: src/flux/engine/block_pool.py. `new` is __init__, the other functions are the methods. Its child
--   Balance says where the blocks are.
-- Prefix: src/flux/engine/prefix_cache.py, the state in Prefix.Defs, peek and candidate_lengths in
--   Prefix.Lookup, the pins and the acquiring of blocks in Prefix.Blocks. `release_key` is release. The
--   proofs are in Prefix.Candidates, Longest, Pins, Ledger and Allocations.
-- Scheduler: src/flux/engine/scheduler.py, RequestQueue in Scheduler.Queue. A pass of a loop of admit is
--   `fcfs_round` or `memory_fit_round`. The proofs are in Books, Moved, Admission, Policies, Progress,
--   Limits and Life.
-- Engine and Outcome: what the worker calls, as a record of functions that may raise.
-- Worker: src/flux/engine/worker.py. What it does to one sequence is in Worker.Sequences, the worker and
--   what happens to it between its passes in Worker.State (with admin_abort of
--   src/flux/server/routes_admin.py), and the passes in Worker.Passes; `Step` has a constructor for each
--   piece of `run` between two awaits and for what clients and the operator do. `release_seq` is _release.
--   A request, a client's abort and a call of admin_abort are one step each; the last is so in the model
--   only, since its handler runs in a thread of its own without a lock. An exception of the sampler ends
--   the sequence in a prefill (`prefill_token`) and the worker's task in a decode step (`decode_crash`).
--   The proofs are in Acts, Prefill, Tokens, Settling, Steps (one sequence), Batch, Decode, Iteration (the
--   batch), Shutdown, Invariant, Clients, Removal, Admin, Begin, Safety, Limits and Capacity (all steps).
-- Queued: QueuedWorker of the same file; `run_loop` is the loop of _run_one, on fuel.
-- Generate: the loops of src/flux/engine/naive_engine.py and src/flux/engine/cached_engine.py, over a
--   model that is a parameter; Generate.Reuse is about the cache of a stored prefix, and about the call
--   `prefix_call` with the positions and the mask that prefill_from_prefix computes.
-- Batching: src/flux/engine/batching.py. A stacked tensor is a list of rows.
-- Tokenizer: src/flux/engine/tokenizer.py, and iter_text_deltas of src/flux/server/sse.py.
-- Requests: the bounds, the submission and the replies of src/flux/server/routes_openai.py.
-- Tests: runs on concrete data.
--
-- A method takes the state and returns the new one. The scheduler and the prefix cache share one pool,
-- which stands once in the scheduler's record; sequences are values that the worker hands on. An
-- exception is a value.
--
-- Bounds and fuel: `evict_loop` runs on the number of entries, and every pass removes one; `peek_from`
-- and `aligned_lengths` run on the number that they count down; a call of admit makes at most as many
-- passes as there is room in the batch; the generate loops count max_tokens down, and
-- `run_loop` gets one more pass than max_tokens, of which Queued.End shows that it is enough. Numbers are
-- natural numbers; where the source divides in floating point, the quotient is exact.
--
-- Not modelled: the tensors of the model and decode_batch's call of it, the sampler's choice (a
-- parameter, which may raise), exceptions of the tokenizer's decode, the durations and times in sequences, results and chunks, the middleware and the text of the
-- metrics endpoint, the readings of /proc and the setting of thread counts, which are calls of the system,
-- and the benchmarks and the dashboard, which are not part of the server.
pub mod Admin
pub mod App
pub mod Batching
pub mod Completions
pub mod Config
pub mod Control
pub mod ControlPlane
pub mod Engine
pub mod FakeLm
pub mod Generate
pub mod Kv
pub mod Metrics
pub mod Outcome
pub mod Pool
pub mod Prefix
pub mod Prelude
pub mod Queued
pub mod Requests
pub mod Runtime
pub mod Scheduler
pub mod Schemas
pub mod Sequence
pub mod Serving
pub mod Streaming
pub mod Tests
pub mod Tokenizer
pub mod Worker
