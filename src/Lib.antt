-- ===== src/Lib.antt =====
-- The deterministic core of AgentSimJS-NG, modelled from its TypeScript sources: parts of the
-- packages that run a simulation, describe it and record it (packages/core, packages/trace,
-- packages/spatial, packages/algorithms, packages/storage). Not modelled: body dynamics, sensing and grid search, which
-- are floating-point geometry; the action runtime, worlds and snapshots of packages/core; the planning
-- service of packages/algorithms; views of grids, the pyramid and beliefs of packages/spatial; the rest of storage,
-- scenarios, tools-schema, the UI and the lab application.
--
-- How the parts interact. A driver paces the scheduler against wall time; the scheduler executes one
-- tick of the world at a time (Time). What happens is pushed into the trace buffer, from which the
-- recorder hands batches to the storage worker (Trace). An agent's mind may be a mission (Mission), whose
-- actions start by the availability check (Availability); conditions are texts of the expression
-- language (Expr), and the layers of a scenario's map are encoded chunks (Codec), kept in layers of
-- chunks (Grid). How an agent's searches are combined is a planning strategy (Strategy), whose selects
-- are conditions too. Scenarios and run configurations are stored as versioned documents (Documents).
--
-- Prelude: shared names, Boolean tests, lists over the native numbers, and the results of
--   packages/core/src/result.ts; an `Outcome` is a call that changes state and may throw.
-- Time: packages/core/src/time. Clock and Scheduler are records; LockstepDriver.advance is
--   `advance_lockstep` and RealtimeDriver.advance is `advance_realtime`. The world is an argument that
--   may throw at any step. Wall time, speeds and `dtS` are whole numbers in fixed units.
-- Trace: packages/trace/src/trace-buffer.ts (Trace.Buffer) and recorder.ts (Trace.Handover,
--   Trace.Recorder). Bodies of records are abstract; the profile filter, redaction, channel test and
--   weights (levels.ts, redact.ts, channels.ts) are arguments, and the vocabulary of sources is one.
--   Trace.Recorder.Runs is the step relation of a recorded run.
-- Mission: packages/core/src/world/sequence.ts. SequenceBrain is the record `Brain`, its `next` the
--   function of that name, over one request's events. The capability manifest is an argument.
-- Expr: packages/core/src/expr/expr.ts. Expr.Lexer is `tokenize`, Expr.Parser and Expr.Grammar the
--   class Parser (a loop of a method is a function of its own, a thrown ParseFailure an error),
--   Expr.Compile is `compileExpr` and Expr.Evaluate the interpreter. Numbers are the interface
--   `Numbers`. The parser runs on fuel: 16 for each token and 8, since a method calls at most eight
--   others before a token is consumed.
-- Codec: packages/spatial/src/codec/chunk-rle.ts, the encoding of a layer's chunk in a scenario
--   document: Codec.Base64 is toBase64 and fromBase64, Codec the runs as bytes, and Codec.Chunk
--   encodeChunkRle and decodeChunkRle. Loops over the values and over the bytes run on the length of
--   the list as fuel, since each round consumes one; a run length takes at most five groups.
-- Availability: packages/core/src/actions/availability.ts, the check by which an action is started:
--   vehicleAvailability, stateAvailability and commandAvailability.
-- Strategy: packages/algorithms/src/planning/strategy. Strategy.Validate is validatePlanningStrategy
--   (validate.ts) from the root of a document on, Strategy.Tree the nodes of schema.ts and strategyFacts
--   (tree.ts), and Strategy.Runner the class StrategyRunner (runner.ts): the generator `run` is a tree of
--   questions to the search service, which an answer takes to the next one. Weights and costs are the
--   `Numbers` of Expr. The loop of strategyFacts runs on the number of nodes, one for each round, and the
--   thinning of a refine's legs on the number of legs, since a stride is at least 1.
-- Grid: packages/spatial/src/grid/chunked-layer.ts. ChunkedLayer is the record of that name, with
--   `get` and `set` as `get_cell` and `set_cell`; the arrays by chunk are functions of the chunk's index.
--   Coordinates are natural numbers whose chunk numbers are below 2^31, so that `| 0` keeps them; the
--   hash function is an argument.
-- Documents: packages/storage/src/adapters/memory.ts, the store `versionedDocs`: `byId` is a list of ids
--   with their versions, and `get`, `insert` and `tombstone` are `get_document`, `insert_document` and
--   `tombstone`. A document and the time of a save are arguments.
pub mod Prelude
pub mod Time
pub mod Trace
pub mod Mission
pub mod Expr
pub mod Codec
pub mod Availability
pub mod Strategy
pub mod Grid
pub mod Documents
