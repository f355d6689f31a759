-- ===== src/Examples.antt =====
-- Concrete inputs, tests of the definitions on them, and a run of each theorem on such an input.
mod Data
mod Engine
mod Startup
mod Answers
mod Parts
mod Probes
mod Logs
mod Table
mod Scrapes
mod Stream
