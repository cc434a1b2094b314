-- ===== src/Server.antt =====
-- packages/aws-durable-execution-sdk-js-testing/src/checkpoint-server: the checkpoint server that
-- the SDK talks to.
pub mod Validate
pub mod Storage
pub mod Manager
