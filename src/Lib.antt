-- ===== src/Lib.antt =====
-- Splunk's distribution of OpenTelemetry for JavaScript: its own logic as antt definitions.
--
-- The program prepares an application's process: it reads its configuration, starts tracing,
-- metrics, logging and profiling, and keeps an OpAMP client that reports the configuration in
-- effect to a server and lets the server switch profiling on and off. The parts and their files:
--
-- Common: the numbers, lists, texts and tests that the parts share. A text is a list of UTF-16
--   code units, and the text functions of JavaScript that the source calls are defined on it.
--
-- Opamp, for src/opamp.
--   Backoff: the class ExponentialBackoff of backoff.ts; the random jitter is an argument.
--   Uuid: uuid7 of uuid.ts; the random bytes and the clock are arguments.
--   RemoteConfig: _remoteConfigBody and _parseRemoteConfig of OpAMPClient.ts. The YAML parser and
--     the text decoder are a parameter (the record Libraries); nothing is assumed of them.
--   Client: the class OpAMPClient of OpAMPClient.ts. The record Client has the fields of the class;
--     World adds what the event loop keeps for it: the armed timers, the requests of polls and
--     of the disconnect message under way, the applies under way, and the messages sent. An async method is cut at its await: Client/Methods
--     has the constructor, start, stop, the messages, _poll up to its request and the scheduling;
--     Client/Responses has processServerResponse and _poll from the end of the request on;
--     Client/Remote has _handleRemoteConfig up to the call of applyRemoteConfig, and apply_settled in
--     Client/Methods has the rest. What the transport, the encoder of a poll's message and the callbacks
--     getEffectiveConfig and applyRemoteConfig do is an argument of the events, with every outcome of
--     theirs; a poll whose message cannot be built ends in its catch. The resource is taken to resolve,
--     and the disconnect message to be encoded.
--   EffectiveState: effective-state.ts. What the snapshot profiler records is kept with it, in
--     Tracing/Snapshots, and put in for the reports.
--   Session: the events in any order, as a step relation (Reach), and what holds after every history;
--     Session/Progress has that the client goes on polling.
--
-- Configuration, for src/configuration and src/utils.ts.
--   Substitute: envSubstitute of substitute.ts, index arithmetic included, and a reader of the same
--     language by structural recursion.
--   Env: the readers of environment variables and the endpoint of an OTLP exporter, of src/utils.ts,
--     over the environment as a function. The parser of URLs is a parameter (the record UrlParser).
--   Document: fetchConfigValue of src/configuration.ts, case by case, over the document as a value
--     (Common/Yaml). Instrumentations: its last case, the readers getConfigBoolean, getConfigArray and
--     getNonEmptyConfigVar, and getInstrumentationsToLoad of src/instrumentations/index.ts.
--   Numbers: getEnvNumber of src/utils.ts and getConfigNumber of src/configuration.ts; parseFloat is an
--     argument, and a number is a whole one.
--   Tracing: configGetSampler, resourceFromString, configGetPropagators, getConfigResourceDetectors and
--     configGetUriParameterCapture of src/configuration.ts.
--   Effective: getEffectiveDeclarativeConfig of src/configuration.ts with its projections, on the
--     document and the effective state of Opamp/EffectiveState; Effective/Profiling has how the report
--     reads as a remote configuration, and Profiling/Controller/Report what pushing it back does.
--
-- JsonSchema, for packages/jsonschema-to-typescript/src/generate.ts, over JSON values (Common/Json).
--   Order: topologicalSort and collectRefs; Order/Graph has the references as a graph, and
--     Order/Sorting what the sort gives.
--   Types: resolveType with the functions below it; Types/Classify: classifyDef; Types/Laws has that the
--     fuel is enough.
--   Emit: the functions that write lines, those of an interface in Emit/Interfaces, and generateTypes;
--     Emit/Laws has that it returns.
--
-- Tracing, for src/tracing.
--   Snapshots: SnapshotProfiler and the functions of snapshots/Snapshots.ts, with the span processor
--     of snapshots/SnapshotSpanProcessor.ts and the operations of the native profiler
--     (src/native_ext/profiling.cpp) that they call. The linger callback is cut at its await.
--   Snapshots/Propagator: snapshots/SnapshotPropagator.ts, over an interface (the record Api) to the
--     contexts and the baggage of OpenTelemetry.
--
--   RuleBasedSampler: createRuleBasedSampler of RuleBasedSampler.ts, up to the rules that it gives to
--     the library.
--   NextJs: the class NextJsSpanProcessor of NextJsSpanProcessor.ts, on a store of the spans.
--   Options: _setDefaultOptions of options.ts with the sampler, the limits and the types of exporters,
--     cut into steps that each may end in an exception; Options/Processors has the span processors and
--     the propagators.
--
-- Exporters, for the exporters of tracing/options.ts and metrics/index.ts. The two files repeat the
--   choice of the endpoint and the protocol, which is one function here, on what the signals differ in
--   (the record Signal). A constructor of OpenTelemetry stands as its arguments; whether createSsl of
--   grpc-js throws is an argument.
--
-- Metrics, for src/metrics.
--   Views: toViewOptions of index.ts and what it calls, the processor of attributes included.
--   Runtime: startMetrics behind the loading of the native extension, its interval, and the counters of
--     src/native_ext/metrics.cpp. Runtime/Laws has the histories.
--   Provider: createExporters, defaultMetricReaderFactory and buildMeterProvider of index.ts, and
--     getDebugMetricsViews of debug_metrics.ts. Whether the constructors of a reader and its exporter
--     throw is an argument, here and for the processors of traces and logs. A document without meter_provider is told from one in
--     which it is null.
--
-- Logging, for logging/index.ts: the exporters, the processors and the limits.
--
-- Instrumentations, for src/instrumentations. Http: the hooks of http.ts, on a span and a response; the
--   parser of URLs and the test of a span context are arguments. Nocode: the wrapper of
--   external/nocode/nocode.ts, with the spans of all calls as the state; Nocode/Patch: how methods are
--   wrapped and unwrapped, over the wrapping of OpenTelemetry as a parameter.
--
-- Profiling, for src/profiling.
--   Serializer: StringTable and Serializer of utils.ts, for CPU profiles, and Serializer/Heap for heap
--     profiles. Serializer/Tables has the invariant of the tables, Serializer/Lookups what a lookup
--     gives, Serializer/Resolution what an id stands for, Serializer/Profiles and
--     Serializer/HeapProfiles what follows for a whole profile.
--
--   Start: startProfiling of index.ts with the stop that it returns, and the operations of the native
--     profilers that they call (src/native_ext/profiling.cpp and memory_profiling.cpp). The record
--     Process has the module's variables, the setImmediate callbacks that wait and the timers armed.
--   Controller: the class ProfilingController of ProfilingController.ts, on Start and
--     Tracing/Snapshots. Its queue runs one call at a time, so a call is one function; whether the
--     event loop turns while it awaits a stop is an argument. Controller/Refinement has the contract
--     of a push, Controller/Histories its proof over histories of pushes, stops and turns,
--     Controller/Outcomes and Controller/Again what is accepted and what a repeated push does,
--     Controller/Memory what becomes of the heap profiler.
--
-- Start, for src/start.ts: start and stop, on Profiling/Controller and Tracing/Snapshots. The steps of
--   start are functions that end by the next one, since a variable that is no boolean ends the whole
--   in an exception where it is read. Start/Laws has what a start and a stop leave, and
--   Start/Again what the variable isStarted of tracing/index.ts makes of a second start.
--
-- Times are natural numbers of nanoseconds, so that the delays that a server asks for, given in
-- nanoseconds, need no rounding. The loop of envSubstitute is on fuel: each round goes on by at least
-- one character, so the length of the text is enough. The digits of a number n are on fuel n + 1, which
-- is at least their count. The recursion of topologicalSort is on fuel above the number of definitions,
-- which is enough since a name under way is not visited again; that of resolveType is on the number of
-- values in the schema. The climb from a node of a heap profile to its root is on fuel that the
-- caller gives; a number above the depth of the node is enough.
--
-- Not modelled: log messages; resources and the names of services; the encoding of messages
-- (generated code); the transport over HTTP; what the profiler, the exporters and the
-- instrumented libraries do; the native extension in C++; and the parts of the source for which
-- no file is named above.
pub mod Common
pub mod Opamp
pub mod Configuration
pub mod JsonSchema
pub mod Tracing
pub mod Profiling
pub mod Start
pub mod Exporters
pub mod Instrumentations
pub mod Logging
pub mod Metrics
