-- ===== src/Lib.antt =====
-- tobira: a relay for VMess connections, which picks the upstream of a connection by the Auth ID that it
-- opens with, and a subscription server, which hands out links that lead to the relay.
--
-- How the parts interact: `Config` is read from a file; each subscription source in it is fetched and
-- parsed to nodes (`Node`), which the steps of a pipeline remove and rewrite and which are deduplicated
-- by name (`Process`). `Manager` pairs each node's UUID with an upstream, and `Validator` makes the table
-- that the relay asks with the Auth ID of a connection, which `Auth` checks. `Http` renders the same
-- nodes to links for each configured output, and serves them to the users who may have them. Traffic
-- over gRPC is framed by `Framing`, in buffers that `Buf` pools, and goes out on the connections of
-- `Pool`. `Relay` leads a connection from its Auth ID to its upstream. `Parser` makes the nodes of the
-- links of a subscription. `Reload` is what a reload does to the state that all of these
-- share, and `Entry` what the start makes of it.
--
-- Base: lists, texts, results and Boolean tests over the native numbers.
-- Buf: src/buf.rs. A buffer is its capacity and its bytes; the allocator's rounding is a parameter.
-- Framing: src/relay/transport/grpc.rs, from `varint_size` on. Varints are read and written by loops on
--   well-founded recursion; `Framing.Reader` is GrpcFrameReader and grpc_to_raw_with_activity over a list
--   of what the stream delivers, `Framing.Sender` is send_grpc_data over a list of flow-control windows.
--   `Framing.Forward` is raw_to_grpc_with_activity and grpc_frames_to_grpc_with_activity over a list of
--   reads, each with what the peer does to the call that sends it.
-- Pool: GrpcPool of src/relay/transport/grpc.rs. A slot is free or held by the task that connects; what a
--   task does between two awaits is a function, `Pool.Steps` runs such functions in any order, and an
--   operation that has to wait for a slot's mutex answers `none`.
-- Relay: `Relay.Inbound` is src/relay/inbound/grpc.rs up to the choice of the upstream, with the task that
--   decodes the request; `Relay.Core` is src/relay/core.rs with the dispatch of src/relay/outbound/mod.rs
--   and src/relay/inbound/mod.rs, and relay_tcp; `Relay.Tunnel` is open_grpc_tunnel and
--   await_grpc_response_headers of src/relay/outbound/grpc.rs; `Relay.Wait` is wait_grpc_relay, the
--   select of relay_grpc_via_core and src/relay/activity.rs over lists of events; `Relay.Fast` is
--   handle_request and relay_grpc_to_grpc_fast, `Relay.Outbound` is relay_grpc with its wait, and
--   `Relay.Activity` is ActivityStream over a list of timed polls and ticks.
-- Parser: src/subscription/parser.rs. The libraries for URLs, base64 and JSON texts, and the functions on
--   texts that follow Unicode, are the fields of `Libraries`.
-- Auth: src/vmess/auth.rs. SHA-256, MD5, AES and CRC-32 are fields of `Crypto`; the clock is an argument.
-- Validator: src/vmess/validator.rs, with the function names of the source.
-- Config: src/config.rs. `deserialize_source` and `deserialize_encoding` are the hand-written Deserialize
--   implementations; the TOML reader and std::path are parameters.
-- Node: the record VMessNode of src/subscription/parser.rs.
-- Process: src/subscription/process.rs. Regular expressions are the fields of `Regexes`.
-- Process.Dedup: deduplicate_nodes of the same file. Hash maps are association lists.
-- Manager: build_validator and node_transport of src/subscription/manager.rs; `Manager.Cache` is the loop
--   over the sources and what it leaves, where what the fetching of each source brings is given;
--   `Manager.Fetch` is fetch_source, the cache file and SubscriptionManager with the whole reload.
-- Http: dispatch and what it calls in src/http/server.rs; `Http.Links` renders the links.
-- Reload: preserve_running_relay, load_config_with_retry and duration_from_seconds of src/main.rs;
--   `Reload.Updates` is reload_full, reload_subs and the main loop on the state that the tasks share.
-- Entry: the start of src/main.rs, up to its tasks, and `Entry.Watch` is watch_file over a list of what the
--   watcher receives.
--
-- Numbers: `u64` sums that can exceed 64 bits keep their wrap-around (`decode_inner`, `add_group`); other
-- numbers of the source stay below their bounds in the code modelled. `none` or an error value stands for
-- a panic (`Panic`, `kdf_panicked`). The panic of build_vmess_url_link where the base
-- is no URL is left to its parameter `print_url`.
--
-- Fuel: `grpc_to_raw` runs its loop one time more than there are bytes to come, which is enough since each
-- round takes a frame of five bytes or more; `grpc_frames_to_grpc`, `read_initial_auth` and `decode_task`
-- have as many. `decimal` has one round more than the number itself.
--
-- Not modelled: the pair of in-memory streams by which relay_grpc_via_core joins its tasks to the core;
-- TCP, TLS and HTTP/2 themselves, listeners and their accept loops, signals and the spawning of tasks,
-- which are input and output. Locks are left out where an operation holds one
-- from its start to its end, but for the slots of the pool. Log messages and the activity marks of the gRPC
-- loops are left out.
pub mod Auth
pub mod Base
pub mod Buf
pub mod Config
pub mod Entry
pub mod Framing
pub mod Http
pub mod Manager
pub mod Node
pub mod Parser
pub mod Pool
pub mod Process
pub mod Relay
pub mod Reload
pub mod Validator
