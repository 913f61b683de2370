-- ===== src/Background.antt =====
-- Background jobs: the queue of Cloud Tasks, the endpoint that it calls, and the worker
-- (apps/api/src/core/queue.py, apps/api/src/domains/jobs/router.py, apps/api/src/worker.py).
pub mod Push
pub mod Accepted
pub mod Worker
mod Tests
