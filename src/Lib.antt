-- ===== src/Lib.antt =====
-- The AWS Durable Execution SDK for JavaScript, packages/aws-durable-execution-sdk-js/src, and the
-- checkpoint server of packages/aws-durable-execution-sdk-js-testing/src/checkpoint-server.
--
-- A durable function runs in invocations. Each operation of its code enqueues updates at the
-- checkpoint manager, which sends them in batches, takes over the new states from the answers, polls
-- for the operations that wait, and ends the invocation when only waiting is left. The checkpoint
-- server of the testing package checks the updates of a request before it applies them. `map` and
-- `parallel` run their items through the concurrency controller, whose result is a batch result.
--
-- Which file models what:
-- - Wire: types/wire/wire-enums.ts and wire-model.ts, the data that both sides exchange.
-- - Termination: termination-manager/types.ts and termination-manager.ts.
-- - Checkpoint: utils/checkpoint/checkpoint-manager.ts. The record `CheckpointManager` holds the
--   fields of the class, and for the platform the pending `setImmediate` callbacks, the request on the
--   way, the requests sent and the promises resolved. Ids has `getParentId` and `hasFinishedAncestor`;
--   Classify `classifyCheckpointError`; Terminate `shouldTerminate` and the termination timer; Queue
--   `checkpoint`, `forceCheckpoint`, `processQueue` and what it calls; Timers the polls and `dispose`;
--   Lifecycle `markOperationState`, `waitForStatusChange` and their like; Steps their interleavings,
--   as a relation, in which each step runs to its end or to its `await`. Terminate/Frame,
--   Terminate/Orphans, Terminate/Safety, Queue/Batches, Queue/Answers, Invariant with its children and
--   Polling hold proofs.
-- - Server/Validate: checkpoint-server/validators, with the validators of the single types in Validate
--   and those of a request in Batch. Transitions, Request and Accepted state the rules as relations.
-- - Server/Storage: checkpoint-server/storage, the store of an execution (the record `Store` with the
--   fields of `CheckpointManager`, `CallbackManager` and `EventProcessor`). Session has invocations,
--   answers, polls and `initialize`; Callbacks callback-manager.ts; Register `registerUpdate` and
--   `completeOperation`; Update `updateOperation`; State `getState`; Events event-processor.ts and
--   utils/history-event-details.ts. An array of events is an index into the arrays of the store, since
--   records share it and `push` reaches them all. The modules Kept and Consistent prove what every call
--   keeps, Register/Applied and Register/Created what an accepted update does, State/Hidden what an
--   invocation is not given.
-- - Server/Manager: storage/execution-manager.ts and checkpoint-server/handlers, the calls of the
--   server; Answered follows a checkpoint request from its validation to its answer.
-- - Retry: utils/retry, utils/wait-strategy and utils/duration, with the bounds of delays in Delay, and
--   the loop of utils/with-retry in Loop.
-- - Step: handlers/step-handler/step-handler.ts, a step from its recorded state to its end as a
--   run with the list of its effects; Protocol states what the server and the handler owe each
--   other, Ends follows the attempts to the last, AtMostOnce has the order of updates and runs of
--   the function, and Stored the checkpoint server as the one that serves a step.
-- - StepIds: utils/step-id-utils/step-id-utils.ts, the memo of hashed ids.
-- - ReplayValidation: utils/replay-validation/replay-validation.ts and utils/termination-helper, the
--   check of an operation against its record.
-- - Batch: types/batch.ts. Settings, Reason and Run model handlers/concurrent-execution-handler/
--   concurrent-execution-handler.ts (the checks of the settings, `shouldContinue`, `isComplete`
--   and `getCompletionReason`, and `executeItemsConcurrently` as a machine whose steps are
--   settlements of item promises); Result models batch-result.ts, Replay `executeItems` and
--   `replayItems` of a recorded batch, and Serial the wire form of batches and of durable errors
--   (errors/durable-error/durable-error.ts). Replay/Views, Replay/Outcomes, Replay/Live,
--   Serial/RoundTrip, Reason/Agreement, Run/Slots, Run/Invariant, Run/Progress, Run/Liveness,
--   Run/Closed and Result/Counts hold proofs.
-- - Common: tests, lists measured by native numbers, association lists for maps, and texts as lists of
--   character codes.
--
-- Bounds and fuel: the walk up the ids of finished ancestors takes as many turns as the id has
-- characters and one more, since each parent is shorter; the loop that starts items takes as many
-- turns as there are indices left, since each turn takes one. The theorems on them need no
-- assumption about the fuel. The loop of `withRetry` takes one turn more than attempts are allowed,
-- and ends within that; a step takes one turn for each attempt that is left and one more; the walk
-- over the causes of an error takes the ten turns of the source. Sizes, delays and counts are
-- natural numbers; a subtraction that the source bounds by 0 stops there.
--
-- Parameters, for code of the platform and of the customer: the digest of `hashId`, the size of a
-- checkpoint's JSON text, the decimal text of a number, the floating-point test of a tolerated
-- percentage, the time, the time left of an invocation, random numbers and ids, the base64 and
-- JSON texts of callback ids, checkpoint tokens and summaries, the JSON of results, and regular
-- expressions. The function of a step, its retry strategy and serializer, what the server makes of
-- its updates and what its retry timer does are parameters, of which Step/Protocol names what is
-- relied on. What `runInChildContext` gives for a recorded item of a batch is a parameter too. A
-- call of the server reads the time once.
--
-- Not modelled: code that runs between the new states of an answer and the promises that it
-- resolves, the log, the plugin hook that runs between an answer and the promises that it resolves,
-- and stack traces, which the SDK turns off; rates of back-off that are no whole numbers and the
-- rounding of floating-point products; the handlers of waits, invokes, callbacks, conditions and
-- child contexts, the durable context, serdes and loggers; telemetry, the viewers, the ESLint
-- plugin, examples and tests, which are glue around the platform.
pub mod Common
pub mod Wire
pub mod Server
pub mod Termination
pub mod Checkpoint
pub mod Batch
pub mod Retry
pub mod StepIds
pub mod ReplayValidation
pub mod Step
