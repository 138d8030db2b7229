-- ===== src/Sandbox.antt =====
-- agentcook-core/src/agentcook_core/sandbox_runner.py: the two executors of plugin code. Docker, the shell
-- and the subprocess are arguments; `Shell` says what the quoting of a shell promises.
pub mod Command
pub mod Executor
mod Tests
