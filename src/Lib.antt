-- ===== src/Lib.antt =====
-- The verification library of LLM SERVER STATUS (lss), a monitor of an LLM server and its
-- gateway: the state machines and the parsers of the pure core crate, crates/lss-core.
--
-- How the program works: a collector polls the server, the gateway, the GPUs and the containers
-- every few seconds. Each poll becomes one observation for the alert rule engine
-- (crates/lss-core/src/rules.rs), which answers with the alert and recovery events to send, and
-- one input of the incident tracker (crates/lss-core/src/incidents.rs), which answers with
-- operations on the incident table. The scrape of the engine's metrics is parsed
-- (crates/lss-core/src/prom.rs), its histograms are cut into windows
-- (crates/lss-core/src/hist.rs), and its gauges become points of the time series
-- (crates/lss-core/src/series.rs), which the collector rolls up
-- (crates/lss-collector/src/rollup.rs). The gateway's audit log is read in turns
-- (crates/lss-core/src/gatelog.rs), and its health report (crates/lss-core/src/gate.rs) becomes
-- the table of users (crates/lss-core/src/users.rs). A maintenance window
-- (crates/lss-core/src/maintenance.rs) and a running benchmark change how the rules grade what
-- they see.
--
-- The files, and the code that each models:
-- - Rules/Sustained: rules.rs, Sustained: step, cooled, held_for. Rules/Sustained/History runs
--   it over a history.
-- - Rules/Windows: rules.rs, GrowthWindow, DiskGrowth and FlapTracker; push of DiskGrowth is
--   push_disk. Its children compare each with the whole log of readings.
-- - Rules/Types, Rules/State: rules.rs, the observation, the events and the state of Engine, one
--   record for each struct with the field names of the source.
-- - Rules/Eval: rules.rs, one function for each eval_* method of Engine, in Service, Events,
--   Gpus, Decode and Counters; a loop body, a branch or a closure that is long is a function of
--   its own.
-- - Rules/Evaluate: rules.rs, evaluate and firing. Emits, Stamps, Timers, History, Announced,
--   StandDown, Xids, Streak, Pairs and Levels prove what the evaluation and its rules do.
-- - Rules/States: rules.rs, rule_states, the table of GET /rules. The closures sustained, event,
--   updown and cd are functions of their own (sustained_row, event_row, updown, cooldown_left);
--   the rows come in the order of the source, in groups (timer_rows, disk_rows, gpu_rows,
--   c1_row, stale_row, reject_rows, event_rows). Shown, Listed and Known compare the table with
--   firing.
-- - Rules/Baseline: rules.rs, the methods of Engine that the startup repair calls:
--   retain_c1_streak, relearn_c1_baseline and the readers beside them.
-- - Incidents: incidents.rs, DownTracker (step_down), restart_detail and IncidentTracker (step).
--   Down, Restart and Whole compare it with the history of polls.
-- - Maintenance: maintenance.rs, clamp_minutes, start, stop and expired.
-- - Probe: probe.rs, the decision to probe and the validation of a probe
--   (crates/lss-core/src/probe.rs).
-- - Tokens: tokens.rs, the totals that survive a restart of the server
--   (crates/lss-core/src/tokens.rs).
-- - Series: series.rs, Agg, Roller (roll, flush) and the layouts plan and hist_plan
--   (crates/lss-core/src/series.rs); Series/Builder: SeriesBuilder, which fills the cells of a
--   plan; Series/Points and Series/Points/Engine: sample_points, in a function for each of its
--   parts; Series/Gateway: CodeCoverage (observe is observe_codes) and build_gateway.
-- - Model: model.rs, the stored poll (Sample).
-- - Pipeline: rollup.rs (crates/lss-collector/src/rollup.rs), Pipeline, which feeds the rollers,
--   the latency tracker and the ten minutes of the gateway's log; a call that writes to the
--   database is an element of a returned list. Parts, Writes and Gatelog compare it with its
--   parts, with what it writes and with the records of the log.
-- - GateLog: gatelog.rs, the aggregates TimeAgg and EstTokens; GateLog/Experience: UserExp;
--   GateLog/Lane: LaneLog and LogDelta (add, merge), the counts of the public and of the trusted
--   lane; GateLog/Ingest: ingest, which reads a text from a stamp on. Counts, Merged, Resume and
--   Room compare the counts with the list of the records.
-- - Gate: gate.rs, the health report, series ids and this_upstream. Gate/Upstream proves what is
--   picked.
-- - Users: users.rs, aliases, points, experience and orders; Users/Rows: build_users.
--   Users/Count compares the table with the users of the report.
-- - Prom: prom.rs, Series; Prom/Parse: parse, parse_line, parse_labels, and the printing of a
--   sample in promout.rs (esc, sample); Prom/Extract: the Extractor and ServeMetrics.
--   Prom/Escape, Prom/Labels and Prom/Rounds are about the labels.
-- - Hist: hist.rs, delta, HistAccum and its percentiles; Hist/Scrape: extract_histogram and
--   extract_latency; Hist/Tracker: LatencyTracker (observe, now) and ClosedWindow. Close, Shape
--   and Recent compare the tracker with the history of scrapes.
-- - TimeUtil, Units, Gpu, Xid, Config, Docker: the types and functions of the files of these
--   names in crates/lss-core/src that the rules and the tracker use.
-- - Base: the Boolean tests, lists, texts, association lists and the interface of f64 that the
--   modules share. Examples: concrete inputs.
--
-- How state and numbers are modelled:
-- - A method on &mut self takes the state and returns the new one with its result. The events
--   that the source pushes to its out argument are a returned list, and the steps of evaluate
--   are composed by ⨟, which appends the lists in order.
-- - A stamp is a number of unix seconds that is not negative, as is each configured number of
--   seconds; a test now - s >= h is written s + h ≤ now, and a difference that is only printed
--   is an integer. u32 and u64 counters are natural numbers; a saturating or clamped operation
--   is written out. The range of i64 is not modelled: it lies far beyond any stamp.
-- - A BTreeMap is an association list in the order of its keys, a VecDeque a list with its front
--   first. Histories in theorems are newest first.
-- - f64 is the parameter F of Base/Float: a type with the operations that the code calls and no
--   assumption on them. A theorem that needs a fact of a comparison has it as a hypothesis.
-- - The process-wide temperature unit, and the printing of dates by the chrono crate, are the
--   parameter Host.
-- - What is read from JSON is a parameter from_json; how the standard library reads addresses is
--   the parameter Addresses, and lower-casing is a parameter of the order by name.
-- - Texts are compared as str: by characters, which is the order of their UTF-8. parse_labels,
--   which scans bytes for ASCII marks, goes by characters.
-- - Every loop of the source runs over a list or a text, and every function is total by
--   structural recursion, but for the loop of parse_labels: it has fuel, one round more than the
--   text has characters.
--
-- Not modelled: the collector but for its rollup pipeline (polling, SQLite, HTTP), the terminal
-- client, the parsers of JSON, CSV and dates, the serialised form of the state and of
-- histograms, promout's render (a list of format calls), and the reports on cost and benchmarks,
-- which are text and f64 arithmetic.
mod Base
pub mod Config
pub mod Docker
mod Examples
pub mod Gate
pub mod GateLog
pub mod Gpu
pub mod Hist
pub mod Incidents
pub mod Maintenance
pub mod Model
pub mod Pipeline
pub mod Probe
pub mod Prom
pub mod Rules
pub mod Series
pub mod TimeUtil
pub mod Tokens
pub mod Units
pub mod Users
pub mod Xid
