-- ===== src/Lib.antt =====
-- A model of the scheduling and planning core of CARTS, the compiler that takes loops of the SDE
-- dialect to tasks and datablocks of the ARTS runtime.
--
-- The runtime configuration describes the machine. A cost model reads it, and the passes over
-- sde.su_iterate loops ask the cost model: schedule refinement picks a schedule, chunk optimization
-- a chunk size, the reduction strategy pass a way to combine, and distribution planning a block of
-- the output for each worker, cut by the worker grids of iteration sizing. Below, in the ARTS
-- dialect, epochs of tasks are fused and split by what they access, the dependences between tasks
-- are found from the datablocks that they acquire and ordered in a graph, datablocks are laid out
-- in blocks, lowering contracts carry proofs of ownership, and operations are given the ids that
-- the runtime lowering uses.
--
-- The files, and the code that each models:
--   Base, Base/*: shared lists, tests and integers; no code.
--   Foreign: llvm::divideCeil, llvm::sort and floating point, as records of operations with their
--     documented facts; Foreign/Reference has concrete ones for examples.
--   Config, Config/*: include/carts/dialect/arts/Utils/RuntimeConfig.h and
--     lib/carts/dialect/arts/Utils/RuntimeConfig.cpp. trim, splitCSV, parseInt and parseBool are in
--     Text; parseFromFile and the constructor in Parse; validateConfiguration in Validate; the
--     worker counts and getExecutionMode in Config itself.
--   Cost, Cost/Arts: include/carts/dialect/sde/Utils/SDECostModel.h and
--     include/carts/dialect/arts/Utils/ARTSCostModel.h.
--   Loop: sde.su_iterate of include/carts/dialect/sde/IR/SdeOps.td, as far as the passes read it,
--     and getStaticTripCount of lib/carts/utils/LoopUtils.cpp.
--   Sizing: lib/carts/dialect/sde/Utils/IterationSizingUtils.cpp, the worker grids.
--   Schedule/Refinement, Schedule/Chunk, Schedule/Reduction: ScheduleRefinement.cpp, ChunkOpt.cpp
--     and ReductionStrategy.cpp under lib/carts/dialect/sde/Transforms/effect/scheduling. The index
--     arithmetic that ChunkOpt.cpp emits is the data type Expr, which Schedule/Chunk/Run evaluates.
--   Plan, Plan/Facts, Plan/Stamp, Plan/Physical, Plan/Uniform, Plan/Pass:
--     lib/carts/dialect/sde/Transforms/effect/distribution/DistributionPlanning.cpp.
--   Epoch: lib/carts/dialect/arts/Analysis/heuristics/EpochHeuristics.cpp and its header;
--     Epoch/Narrow: lib/carts/dialect/arts/Transforms/epoch/EpochOptStructural.cpp.
--   Ownership, Partition: lib/carts/dialect/arts/Analysis/db/OwnershipProof.cpp and its header.
--   EdtGraph, EdtGraph/Topological: lib/carts/dialect/arts/Analysis/graphs/edt/EdtGraph.cpp, but for
--     the export; EdtGraph/CriticalPath: analyzeCriticalPath of
--     lib/carts/dialect/arts/Transforms/edt/EdtTransformsPass.cpp.
--   DbAlias: lib/carts/dialect/arts/Analysis/db/DbAliasAnalysis.cpp.
--   Fold: the constant folder of lib/carts/utils/ValueAnalysis.cpp; Fold/Meaning: what a value is
--     when the program runs, at the widths of its types, and the condition that the widths do not
--     change a result, under which the analyses are right; ValueFacts: the equivalence of values, their dependence on another, what is stripped of them
--     and the tests for 0, of the same file.
--   Offsets: getOffsetStride and extractConstantOffset of
--     lib/carts/dialect/arts/Utils/ValueAnalysisUtils.cpp, and normalizeAccessBounds of
--     lib/carts/dialect/arts/Analysis/AccessPatternAnalysis.cpp.
--   DataFlow: lib/carts/dialect/arts/Analysis/edt/EdtDataFlowAnalysis.cpp, whose dependences are the
--     edges of the task graph.
--   DbLayout: lib/carts/dialect/arts/Utils/DbLayoutPlanUtils.cpp. The index arithmetic that it emits
--     is the data type IndexExpr, which DbLayout/Run evaluates.
--   Ids: lib/carts/dialect/arts-rt/Utils/IdRegistry.cpp and its header.
--
-- Numbers: an int64_t that the code keeps nonnegative is a natural number, another is an integer
-- without bound, since C++ leaves signed overflow undefined; where the code saturates the bound is
-- written out, the emitted index arithmetic wraps at 64 bits, the operations of a value at the
-- widths of their types, and the int counts of workers at 32 bits. The loops of
-- factorWorkersAcrossDims recur on fuel: as much as the number of workers for the outer loop and as
-- what remains of it for the inner one, which is enough since each round divides by at least 2 or
-- raises the factor. The analyses of values recur on the levels of depth that the code searches,
-- and their theorems hold at any number of levels. The search of the task graph has one round more
-- than there are edges, which is enough since an edge queues a task at most once; the topological
-- order has a round for each task, which it places. The rounds of a loop in the data flow analysis
-- are the five of the code. All other loops are structural.
--
-- Not modelled: type sizes, floating-point values and loads of scalars in the analysis of
-- values, where an operation on integers that the code does not name has up to two operands; the
-- printing of diagnostics; the construction, moving and erasing of MLIR operations, of which
-- only the attributes that a pass sets are kept; the analyses of loop bodies
-- (StructuredOpAnalysis.cpp), of datablock conflicts and of the allocation under a value, whose
-- results are arguments; the conversions between dialects, the verifiers, the lowering to LLVM
-- and the command line.
mod Base
pub mod Foreign
pub mod DbLayout
pub mod Fold
pub mod ValueFacts
pub mod Offsets
pub mod DbAlias
pub mod DataFlow
pub mod Sizing
pub mod Epoch
pub mod Config
pub mod Ids
pub mod EdtGraph
pub mod Loop
pub mod Cost
pub mod Schedule
pub mod Plan
pub mod Partition
pub mod Ownership
