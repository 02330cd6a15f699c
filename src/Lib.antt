-- ===== src/Lib.antt =====
-- ShieldWall: a web application firewall for Node.js. A request passes the guard of the sign-in
-- endpoints and the rate limiter (src/index.js), and is then analysed by the engine
-- (src/core/engine.js): it is decoded, every detection module looks at it, the signature rules are
-- matched, the findings are added up to a risk score, and the score decides with the mitigation engine
-- whether it is blocked, challenged, slowed down or let through.
--
-- The files and what they model:
-- Address: the client's address, as src/modules/brute-force.js reads it.
-- BruteForce: src/modules/brute-force.js, the guard of the sign-in endpoints.
-- Mitigation: src/core/mitigation.js, challenges and slow-downs by risk score.
-- Rules: src/core/rule-parser.js (Ast, Parser) and src/core/rule-matcher.js (Matcher).
-- RateLimiter: src/modules/rate-limiter.js, the store and the limiter, and their interleavings.
-- Paths: the fixed path patterns of src/core/recon-tracker.js and src/core/engine.js.
-- Recon: src/core/recon-tracker.js, the addresses that probed the server.
-- Scoring: the severities and the risk score of src/core/engine.js.
-- Engine: src/core/engine.js, `analyze`, with Scoring, Recon, Paths and Mitigation.
-- AutoRules: the rules that src/core/engine.js generates, and their limits.
-- Sequence: src/modules/sequence-anomaly.js: the ring buffer, the classes of parameters (Sequence/Params),
--   the detectors (Sequence/Detectors, Sequence/Fanout), the check and the cleaning (Sequence/Check).
-- Fingerprints: src/modules/fingerprinter.js, with Reputation and Address.
-- Reputation: the popularity of fingerprints and the drift of an address in src/modules/reputation.js.
-- Escapes: the escapes of src/core/decoder.js (percent signs, entities, backslashes).
-- Decoder: src/core/decoder.js, `fullDecode` with the paths, Base64 and the search for double keys.
-- Requests: src/core/decoder.js, `decodeRequest` and `deepDecode`, with Decoder.
-- Ddos: src/modules/ddos-protection.js, the floods of one address and the sizes of a request.
-- Bots: src/modules/bot-detection.js: the sessions, and the check of a request (Bots/Check).
-- Baselines: src/modules/adaptive-baselines.js, with its averages as a parameter.
-- Headers: src/modules/header-security.js: the settings, and the headers of a response (Headers/Policies).
-- Middleware: src/index.js, with BruteForce and Engine.
-- TrapRouter: src/modules/trap-router.js, the paths that only scanners ask for.
-- Sessions: src/modules/session-anomaly.js, with its detectors (Sessions/Detectors, Sessions/Buckets,
--   Sessions/Patterns), the check and the cleaning (Sessions/Check).
-- ApiAbuse: src/modules/api-abuse.js, the cost of a query (ApiAbuse/Queries) and the endpoints that a
--   client asks for (ApiAbuse/Tracking).
-- AhoCorasick: src/core/aho-corasick.js, the automaton and its search.
--
-- Times are milliseconds and arguments of the calls; they do not wrap. A `Map` with string keys is the
-- list of its entries in the order of insertion (Prelude/Maps), a string the list of its code units
-- (Prelude/Strings), a window of time stamps `recent` (Prelude/Windows). Numbers that a client writes
-- at any length are rounded to doubles (Prelude/Doubles); counts, times and points stay below 2 ^ 53.
-- Node's library (crypto, URL, Buffer, timers, the check that `res.setHeader` makes of a header) is not
-- modelled: what the code takes from it is an argument.
--
-- Fuel and bounds: the parser of conditions runs on the number of tokens it may still read;
-- `decode_passes` and `deep_decode` on the depth that the code allows (MAX_DECODE_DEPTH, 5), where the
-- code stops as well; `slide` (Sessions/Buckets) on one round for each millisecond of the time, and a
-- round moves the start by a millisecond or more; `follow` (AhoCorasick) on one round more than the node
-- has letters (AhoCorasick/Rounds), and `build_loop` on the number of nodes, each of which is queued
-- once. The limits of the maps are those of the sources.
--
-- Not modelled: console output, files, web hooks, timers themselves and the network (src/core/logger.js,
-- src/core/reporting.js, src/dashboard, src/playground, src/cli.js), since they are input and output;
-- src/modules/anomaly.js, which declares a constant twice in one scope and so does not load;
-- src/modules/smart-anomaly.js, whose statistics are floating-point numbers; the modules that only list
-- regular expressions; the gateway and the ports in other languages. The honeypot stands alone and is left
-- out.
mod Prelude
pub mod Address
pub mod BruteForce
pub mod Mitigation
pub mod Rules
pub mod RateLimiter
pub mod Paths
pub mod Recon
pub mod Engine
pub mod Scoring
pub mod Sequence
pub mod AutoRules
pub mod Reputation
pub mod Fingerprints
pub mod Escapes
pub mod Decoder
pub mod Requests
pub mod Ddos
pub mod Middleware
pub mod TrapRouter
pub mod Sessions
pub mod ApiAbuse
pub mod Bots
pub mod Headers
pub mod Baselines
pub mod AhoCorasick
