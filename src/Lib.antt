-- ===== src/Lib.antt =====
-- AdGate: a gateway that decides, for each turn of a conversation with an assistant, whether an ad
-- may be shown, and that leaves a signed audit record of every decision. The library models the
-- core of the decision (packages/core/src), the data it works on (packages/schemas/src) and the
-- part of the server that makes a turn of it (packages/gateway/src).
--
-- A turn is first classified (`classify`): rules over dictionaries, and a language model whose
-- answer is merged with theirs. It then goes through `evaluate`
-- (packages/gateway/src/evaluate/pipeline.ts): the app's policy, made stricter by the request's
-- overrides (`mergeOverrides`), is applied to the classification, the user and the frequency caps
-- (`evaluatePolicy`); if it allows the turn, the adapters are asked for candidates (`mediate`); the
-- outcome becomes a record that is hashed, signed and chained to the app's latest
-- (`buildAuditRecord`) inside one transaction that reads the caps again; and the response is
-- derived from that record. A record can later be attested and verified.
--
-- Where what is modelled:
--   Prelude     numbers, lists, sets, equality and texts that all parts share.
--   Schema      the types of packages/schemas/src that the parts exchange.
--   Policy      packages/core/src/policy: Regions (regions.ts, eu-members.ts), Caps (caps.ts), Evaluate
--               (evaluate.ts), Merge (merge.ts, with Fields and Nested for its steps).
--   Demand      packages/core/src/demand: Exclusions (exclusions.ts), Ranking (the order of select.ts),
--               Match (match.ts, keywords.ts, regions.ts and matchScore), Match/Direct (direct.ts),
--               Mediate (mediate.ts), Deliverability (deliverability.ts), Affiliate (affiliate/registry.ts
--               and amazon.ts, with Amazon, Template and Adapter for the other files of affiliate and
--               network-stub.ts; Text cuts and joins texts).
--   Audit       packages/core/src/audit: Record (the schema of the record), Chain (chain.ts, the ring of
--               keys.ts), Build (record.ts and the hashes), Attest (attest.ts), Checks
--               (verify-checks.ts), Verify (verify.ts, verify-supersedes.ts).
--   Classify    packages/core/src/classify: Cache (cache.ts), Rules (rules/classify.ts, with Types, Match
--               and Score for types.ts, match.ts, registry.ts and score.ts), Merge (merge.ts), Prepare
--               (prepare.ts), Output (llm/output.ts), Run (classify.ts and types.ts).
--   Gateway     packages/gateway/src: Auth (auth/middleware.ts, repository.ts, with Keys and
--               VerifiedCache for keys.ts and verified-cache.ts), Click (click/destination.ts and
--               route.ts), RateLimit (rate-limit/limiter.ts), Retention (retention/queries.ts, with Run for
--               run.ts),
--               Store (evaluate/caps.ts, audit-store.ts), Evaluate (evaluate/pipeline.ts, response.ts,
--               fail-closed.ts).
--   Samples     the values that the modules called Tests use.
--
-- Names are the source's in snake case: `evaluatePolicy` is `evaluate_policy`. A throw is `none` of
-- an Option, or `threw` with its name where the code tells the name. Loops are structural recursion
-- with the accumulators of the source as arguments.
--
-- Representation. Scores, thresholds and money are natural numbers in a common unit, with NaN as
-- its own score; a targeting score is in thousandths and is exact before it is rounded, where the
-- source rounds in floating point. Tokens are in millionths, so the bucket's arithmetic is exact,
-- where the source's is rounded in doubles. A `Set` is the list of its values in the order of
-- insertion, `Array.prototype.sort` is a stable sort by insertion, and a text is walked through by
-- code points, but ids are compared by code units (trimming and lower case are ASCII's). A sentence
-- of an error or of a decision is a constructor with the values put into it.
--
-- Parameters. `Platform` (Audit/Chain) stands for Node's crypto, canonical JSON, zod's formats and
-- `Date`; canonical JSON is asked for only where all numbers are finite (`is_json`), since it
-- throws otherwise; `KeyPair` is the hypothesis that the public key in the ring verifies what the
-- private key signs. `Classifier` (Classify/Run/Types) holds the normalisation of texts, the hash
-- of the cache key, the compiled dictionaries and what the first steps throw on values outside
-- their types; `Hashing` (Gateway/Auth) SHA-256 and argon2; `Urls` (Demand/Affiliate/Amazon)
-- percent encoding and the parsing of URLs, with `IsPlatform` as what is documented of them and of
-- a reader of queries. `normalize` stands for the Unicode normalisation of keywords, `cut` for the
-- cut of an error text, `fields_ok` for zod's check of the single fields of a response.
--
-- Time and concurrency. An adapter is the list of the events that happen, in their order, before
-- its own timer fires. A transaction holds the lock of its app, so it is one step of the store; a
-- call reads the caps in one state of the store and persists in a later one, and any calls may come
-- between.
--
-- Fuel. `verify` calls itself on the record that the given one supersedes. That record may
-- supersede none, so two levels are enough: `verify` takes them, and `verify_at` any number.
--
-- The classifier takes its cache as a record of operations on a state, the language model as the
-- first event that happens while it waits (an answer, a rejection or its own deadline) and the
-- clock as its next readings, any of which may throw; an operation of the cache leaves a state even
-- where it throws. The map of verified keys sees what the tables answer each request.
--
-- The retention job sees the tables of all apps. A query for the first or last position is a walk
-- over the rows, a transaction commits or leaves the tables as they were, and a cutoff before 1970
-- is 0.
--
-- Fuel of the search for masked phrases: each round moves by one character, so the length is
-- enough.
--
-- A request's authentication is one step, with one reading of the clock.
--
-- Not modelled: the dictionaries, the prompt and the HTTP client of the classifier; SQL, HTTP,
-- metrics, timers, configuration, command lines; the dashboard and the SDKs.
pub mod Prelude
pub mod Schema
pub mod Policy
pub mod Audit
pub mod Demand
pub mod Classify
pub mod Gateway
pub mod Samples
