-- ===== src/Http.antt =====
-- http/src: the HTTP plugin. `Types` holds the data, `Url` the pattern of URLs, `Worker` what the worker
-- makes of one job, `Values` what is read from the values of a script, `Requests` the
-- promises of requests and their way through the queues.
pub mod Types
pub mod Url
pub mod Worker
pub mod Values
pub mod Requests
mod Tests
