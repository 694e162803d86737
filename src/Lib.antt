-- ===== src/Lib.antt =====
-- ArcFlare runs a language model on several machines. This development models two of its Rust
-- programs: the GGUF splitter, which cuts a model file into shards by layers, and the node agent,
-- which loads a model, answers forward passes and prompts over gRPC, keeps an rpc-server child, tunes
-- the system and reports on it. The splitter's shards are what the nodes load, and the node's test of
-- a tensor goes by the same layer numbers.
--
-- Base: numbers and tests, lists, results, bits, and the texts that Rust's `str` offers.
-- Splitter: tools/gguf-splitter/src/main.rs, with the functions under the names that they have there.
--   Bytes     little-endian numbers, slices, and `At`, "these bytes stand at this offset"
--   Reader    `read_u32`, `read_u64`, `skip_value`, `get_metadata_string`
--   Header    the reading part of `main`: header, metadata, the search for the tensor infos, the infos
--   Layers    `get_layer_id`, `count_layers`, `group_tensors_by_layer`, `get_shard_tensor_indices`
--   Writer    `align_up`, `compute_data_sizes`, `write_shard`
--   Main      `main` and `calculate_from_node_config`; under it the proofs of a whole run: Restore and
--             Split of what it writes, Plan of the plan, Read and Reread of what it reads, Whole of the
--             way from a file to its shards and back
-- Agent: node-agent/src. A machine is a record of calls on its state (`System`), a parameter.
--   Tuning    tuning/io.rs, tuning/kernel.rs, tuning/mod.rs; Queries: tuning/hugepages.rs, `tune_all`
--   Drivers   drivers/check.rs (`audit`)
--   Shard     inference/shard.rs
--   Rpc       inference/rpc.rs, over processes that are a parameter (`Processes`)
--   Inference inference/model.rs and inference/forward.rs, over the binding of llama.cpp (`Llama`); Entry:
--             inference/mod.rs; Stubs: the branches for a build without the feature `inference`
--   Overclocking overclocking/safe.rs, aggressive.rs and monitor.rs
--   Hardware  hardware/memory.rs and mod.rs; Cpu: hardware/cpu.rs; Gpu: hardware/gpu.rs and `collect`;
--             Benchmark: hardware/benchmark.rs, where the time taken is an argument
--   Service   the handlers of network/grpc_server.rs; Stream: `forward_stream`; Generate: the task that
--             it spawns for a prompt; Recorded: the binding with a record of the positions; Decoding: greedy
--             decoding, the reference for Generate, and what the binding then has to do. They call
--             Tuning, Drivers, Overclocking and Inference
--   Node      main.rs: it starts Rpc, announces itself, builds the service and ends; Ending: the service
--             and the signals that end it; Discovery: network/discovery.rs
--   Client    network/grpc_client.rs, over the client that tonic generates (`OrchestratorClient`)
-- The modules of Splitter and Agent whose names end in Tests hold runs at concrete inputs.
--
-- Parameters stand for other libraries: `System` the calls of the operating system, `Processes` tokio's
-- processes, `Udp` its sockets, `OrchestratorClient` the generated client, `Llama` the binding,
-- `Sysinfo` the library sysinfo, `Floats` the `f64` operations. A future is the second in which it is
-- ready, if it ever is (`Future`); of two that `tokio::select!` finds ready at once either may win. A logit
-- is the 32 bits of an `f32`. The statics BACKEND and CURRENT_SHARD are fields of the process
-- (`World`); an action that fails keeps what it changed before.
--
-- A `&mut usize` offset is passed in and handed back. Sums and differences of `usize`, `u64`, `u32`
-- and `i32` wrap, as in the release build of the Makefile. `Outcome` is a result, an error of
-- `anyhow`, a panic (an index or a slice out of range), or `stuck`, where fuel ran out. Fuel occurs
-- in `skip_value`, for the nesting of arrays: each level takes twelve bytes of the file, so its
-- length is enough for every value that is encoded there; and in `broadcast`, for its rounds, of which
-- one more than the seconds until the shutdown is enough. Loops over ranges go by the rounds left. The
-- digits of a `u64` are twenty at most. A file is the list of its bytes.
--
-- Not modelled: console output, JSON and the names of files; a failure to create a directory or a
-- file, or to write to it; memory that runs out, as in `Vec::with_capacity` for the tensor count of a
-- broken header, where `read_tensors` errs at the end of the file; the gRPC transport and the generated
-- code; the logger; in `forward_stream`, tokio's bounded channel between the task and the stream, and with
-- it the interleaving of the two: the task runs to its end, and the stream is read then, or a client that
-- leaves is the argument `takes` of `produce`; and the orchestrator, in Python.
pub mod Base
pub mod Splitter
pub mod Agent
