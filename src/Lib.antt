-- ===== src/Lib.antt =====
-- Verification of the serving core of burn-lm: the paged KV cache, the continuous-batching engine, and
-- the worker that schedules requests onto it.
--
-- The parts and how they interact. A request is a job on the worker's queue. The worker
-- (crates/burn-lm-inference/src/channels/batching/worker.rs) admits jobs into decode slots as the
-- block budget allows, grants the sequences more blocks as they grow, and runs one round after the
-- other of the decode core (crates/burn-lm-inference/src/batching.rs), which prefills prompts and
-- advances every decoding sequence by one token. The tokens go to the emission thread
-- (crates/burn-lm-inference/src/channels/batching/emission.rs), which assembles text
-- (crates/burn-lm-inference/src/utf8.rs) and completes the callers. A decoder
-- keeps its keys and values in the paged cache (crates/burn-lm-paged-kv/src), where a lane for each
-- slot draws blocks from one shared pool.
--
-- The files:
-- Prelude: Boolean tests, lists, options and division for all modules.
-- Pool: crates/burn-lm-paged-kv/src/block_pool.rs. `BlockPool` is the struct of that name, an operation a function
-- to the pool after it, `none` a panic. Invariant, Round, Reach and Address are about its ledger;
-- Grow, Rollback and Growing carry the proofs.
-- Store: crates/burn-lm-paged-kv/src/block_store.rs and kv_cache.rs, over a record `Tensors` for the tensor library.
-- Cache: crates/burn-lm-paged-kv/src/cache.rs, `prepare_lanes` and the plan of a round.
-- Cache/Contents says what it is for a store to show a list of rows for each lane; Placed, Refines,
-- Prepare and Read carry that through a round.
-- Engine, Engine/Budget, Engine/Round: crates/burn-lm-inference/src/batching.rs and errors.rs. `Model` stands for
-- the decoder and the sampler, whose calls may return anything. Engine/Round/Moves says what a
-- round may do to a sequence, Engine/Round/Faults which errors may retire it.
-- Worker: the types of worker.rs and a record `Server` for the server trait. Worker/Admit is
-- `admit`, Worker/Growth `grant_kv_growth`, Worker/Step `step`, Worker/Command `handle_command`,
-- `fail_everything` and `worker_iteration`. What the worker sends is a list of effects.
-- Worker/Growth/Preserved carries a relation through the grants; Senior and Conserved use it.
-- Utf8: crates/burn-lm-inference/src/utf8.rs, with `from_utf8` of the standard library.
-- Utf8/Scan says by a relation what bytes make, Chunks and Whole relate streams to it.
-- Channel: crates/burn-lm-inference/src/channels/batching/mod.rs, the callers' side of the worker. Channel/Steps has
-- the interleavings: each call of `submit` stands between two of its atomic operations.
-- Emission: crates/burn-lm-inference/src/channels/batching/emission.rs, a run over the events of a closed channel.
-- Generate, Generate/Stream: crates/burn-lm-llama/src/generation/generate.rs, and context.rs and streaming.rs beside
-- it. `Driver` stands for what the loop calls of `Llama`, `Tokenizer` for the tokenizer trait.
-- Llama: crates/burn-lm-llama/src/nn/llama/inference.rs, the decoder over the paged cache, and a record `Network`
-- for the forward pass. Llama/Server is what crates/burn-lm-llama/src/server/llama3.rs tells the worker of its
-- capacity and the cache that a load sizes; Llama/Server/Capacity relates the two.
--
-- Fuel: the growth loop has `2 * length active + 1` turns; each turn passes a sequence or evicts one
-- that is still ahead. `from_utf8` has a turn for each byte, and `push` one more, since every turn but
-- the last takes a byte at least. The driver's loop has `enough_rounds`: two for each
-- token that may still be generated, one for each token that is not processed, one for each sequence.
--
-- Numbers are natural numbers. Where admission and the growth grants add up the tokens that a caller
-- asks for, the sum is that of a release build, modulo `2 ^ 64`; elsewhere `usize` arithmetic does not
-- wrap at the sizes of a cache. The casts to `u32` and to the signed `i32` are written out. A division
-- by a block size of 0 is a panic, as is what a loader or a tokenizer unwraps. Not modelled: logging,
-- threads and channels as such, the panic boundary of the worker, clocks (a turn is given the time),
-- the tensor programs of the networks, the HTTP and command-line front ends.
pub mod Prelude
pub mod Pool
pub mod Store
pub mod Cache
pub mod Engine
pub mod Worker
pub mod Utf8
pub mod Emission
pub mod Generate
pub mod Channel
pub mod Llama
