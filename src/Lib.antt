-- ===== src/Lib.antt =====
-- Verification of dip_Distributed_LLM_Runtime: a browser runs llama.cpp as WebAssembly, and splits a
-- model over peers.
--
-- The parts of the program, and where they are modelled:
--
--   PeerManager    harness/runtime-only/harness-peer-manager.js, createHarnessPeerManager. The WASM
--                  module sees connections as fds; the manager pairs them with remotes over a
--                  transport. The connection objects stand in a heap (`objects`), since the maps
--                  `conns` and `byRemote`, the wake hand-off and the accept hand-off all share them.
--                  `Op` and `apply` are the methods and the frames that come in. Posts, events and
--                  callbacks go to a log. Links: the maps agree. Ledger: fds are reserved and released.
--                  Fds: newFd. Drain and Stream: the bytes of a connection. Report: fdStats. Wire: two
--                  managers and the channel between them.
--   Runtime        runtime/llmlet-runtime.js. Requester: startRequester, its start-up function cut at
--                  the awaits, the hooks onExit, onAbort and pending_prompt, and generate, cancel and
--                  stop. Peer: startPeer in the same way. Arguments: the command line, the context size
--                  and the encoding of a prompt. Model: the virtual model file (addRemoteFile: Reads,
--                  Arrivals, Serving and Answers) and the preload (fetchWholeModelToCache: Filling and
--                  Preload). Source: prepareModel, digestString, the fetchRange that is handed to the
--                  model file, the load of a chunk and ChunkCache.get (Ready and Loads: what a prepared
--                  model serves; Identity: its cache key). ChunkCache: openChunkCache. Output:
--                  createUtf8Output. Requirements: requirePeerManager and requireBrowserRuntime. Setup:
--                  configureEnv and releaseConn. Deferred: the promises that both runtimes settle.
--   BackendOps     harness/backend-ops/summary.mjs: the patterns and classifyOutcome (Patterns), and
--                  BackendOpsSummary (Summary: feed, flush, line, verdict; countExpectedCases).
--   Gguf           scripts/lib/gguf-header.mjs: Cursor, readGgufHeader and tensorBytes (Program,
--                  Header); scripts/probe-gguf-header.mjs: HttpSource and FileSource (Sources), what
--                  summarise says of the tensors (Summary), and main (Probe). The reader asks a source
--                  for bytes through `ensure`; `IsSourceOf` is what it relies on. Header/Start is the
--                  end of readGgufHeader, where the tensor data starts, and metaValue. Header/Writing
--                  is the file format itself, independent of the reader; Parsing, Fields, Values,
--                  Descriptors and RoundTrip read what it writes, Sources/Written through the probe's
--                  source.
--   LanProbe       scripts/lan-probe.js. Candidates: describeSignaled and describeStatCandidate.
--                  Matching: matchSignaled. Selection: digestStats. Snapshots: snapshot cut where
--                  getStats settles, and mergeObserved. Connections: the constructor Probed, its
--                  handlers and associate. Peers: the wrappers of Peer. Report: isLocalOrigin, report
--                  and refreshStats. Page: preflight and gpu.
--   CrossCheck     scripts/crosscheck-gguf-probe.mjs. Values: sameNumber and the comparisons of JSON.
--                  The file itself: compare. Run: main. Agreement, Fields and Verdict: what agreement
--                  means. Processes: findHostPython, ensureVenv and withHttpModel.
--   Prelude        names and lemmas that all parts share.
--
-- Asynchronous code is cut at its awaits: each stretch is a function on the state, and an interleaving
-- is a sequence of steps (Runtime/Requester/Steps, Runtime/Model/Reads, LanProbe/Connections) or a list
-- of operations (PeerManager.Api.run). An awaited answer of `ensure` is a request of a program
-- (Gguf/Program).
--
-- Bounds and fuel: newFd scans fd_max numbers; the loops over bytes and lines have the length of what
-- is left as fuel, and each round takes one unit at least. A number in decimal has at most as many
-- digits as its value and one more. withHttpModel makes max_attempts rounds. CHUNK_MAX is the parameter
-- `m` of Runtime/Model, since only its being positive matters there, and a key of its chunk store is a
-- range of bytes, since the store is that of one model: `cache_key` of Runtime/Source is the whole key.
-- Numbers that the code keeps below 2 ^ 53 are exact; CrossCheck takes the operations of doubles as a
-- parameter.
--
-- Assumptions: transport.post returns, except in send; callbacks do not call the manager back;
-- peerManager.close returns; the cache accepts every put of a preload; remote ids are texts; the ids in
-- a statistics report are distinct; no key of a metadata file is a property that every JavaScript
-- object inherits. Outside code is a parameter: fetch and createReadStream in Gguf/Sources, the server,
-- SHA-256, TextDecoder and IndexedDB in Runtime, the URL constructor in LanProbe, the processes in
-- CrossCheck, with what is asked of them as a hypothesis.
--
-- Not modelled: the BroadcastChannel transport; resolveBaseUrl, importModuleFactory and configureFiles,
-- which join URLs and import; the report texts of the judge and of the probe, and the fields that the
-- probe prints for the architecture and the tokenizer; the decoding of texts and floats in a GGUF file;
-- run, probeJson and ggufPyJson of the cross-check, which start processes and parse what they print.
mod Prelude
pub mod PeerManager
pub mod Runtime
pub mod BackendOps
pub mod Gguf
pub mod LanProbe
pub mod CrossCheck
