-- ===== src/Lib.antt =====
-- The ATTESTA console (web/), an analyst's front end of a security operations centre: a synthetic
-- data layer behind API routes, a sign-in, the screens, and the checks that the browser repeats.
--
-- The parts and their files:
--   Rng          web/src/lib/data/rng.ts, `Xorshift32`. The state is a 32-bit pattern; code that
--                draws is a `Rand`, a function from a generator to a result and the generator after
--                it, with `none` for a read of `undefined`. Rng/Runs has a rule for each way to
--                build a `Rand` that returns, Rng/Ensures one for what holds of its results.
--   Types        web/src/lib/data/types.ts: the records and enumerations.
--   Seed         web/src/lib/data/seed.ts: cases and timelines drawn from a generator.
--   Policy       web/src/lib/data/policy.ts and the request's type of
--                web/src/lib/kernel/kernel-wasm.ts; Policy/Thresholds has `classify` of
--                kernel/src/policy.rs, with which the console's ladder is compared.
--   Store        web/src/lib/data/store.ts: the one store in memory, passed on by the functions that
--                change it (`tick`, `decideResponseAction`), and the decision route of
--                web/src/app/api/response-actions. It uses Seed, whose cases it holds.
--   Merkle       web/src/lib/kernel/merkle.ts: trees, proofs and their check; Merkle/Preimages lists
--                what is hashed for a tree and for a proof, Merkle/Padding has the pad preimage of
--                ledger/merkle.go.
--   Verification web/src/components/verdict-ledger/verification-panel.tsx: `runVerification`, over
--                the server and the kernel, which uses Merkle's check.
--   Kernel       the verdict's type of web/src/lib/kernel/kernel-wasm.ts and `verifyClaimSet`.
--   Ledger       web/src/lib/data/ledger.ts and the routes of web/src/app/api/ledger: Claims draws an
--                investigation's claims, Json is what is hashed, Sealing, Chains and Building are the
--                manifest, the tenants' chains and the loops, Evidence the proofs and the panel.
--   Drift        web/src/lib/data/drift.ts, over the ledger's data and the kernel.
--   Graph        web/src/lib/data/graph.ts: generation, and in Cache the cache and the proofs.
--   Canvas       web/src/components/investigation-canvas: the quadtree over any ordered coordinates,
--                the layout, the selection and the pointer.
--   Timeline     web/src/components/timeline/timeline-track.tsx: the scale from times to pixels.
--   Watchfloor   web/src/components/watchfloor: the live feed, the filters, the queue's keys.
--   Auth         web/src/lib/auth/session.ts and web/src/app/login/actions.ts; Auth/Routes has
--                web/src/middleware.ts with its matcher, the check of
--                web/src/app/(console)/layout.tsx and what is answered to a path.
--   Shell        web/src/components/console-chrome-provider.tsx and web/src/lib/shortcuts.ts: the keys
--                of the shell and the chord, as a step relation.
--   Prelude      shared names, lists, integers and maps; Examples, the theorems at concrete inputs.
--
-- Parameters stand for code outside the repository, or in another language of it: `Doubles` (IEEE
-- 754 arithmetic on the generator's fractions and on large sums), `Ratios` (a division in doubles),
-- `Coordinates` (the numbers of the canvas with their order), `Hashing` (BLAKE3 and TextEncoder),
-- `JsonText` (JSON.stringify), `Signing` (HMAC, base64url and JSON), `Services` (the server and the
-- kernel as the panel calls them) and `Kernel` (the WebAssembly kernel, a function of its request;
-- it may refuse any request but those of the ledger and the drift, which have evidence in every
-- claim and times in 64 bits). A reading of the clock is an argument; the ledger's theorems ask
-- that it stays below 2 ^ 61 nanoseconds, until 2043, so that the claims' times fit. A JavaScript
-- `Map` is the list of its entries in insertion order.
--
-- The ledger, the drift and the graph meet in Merkle (the trees over their evidence) and in
-- Verification, whose panel Ledger/Evidence runs against the ledger's own routes.
--
-- Fuel and depth: `nextPowerOfTwo` runs on its argument, since the power doubles at each round; the
-- levels of a tree on the number of leaves, since each level is shorter; digits of a number on 53
-- places, which a number below 2 ^ 53 has in no radix from 2 on more of; the quadtree's insertion on
-- the depths that are left, of MAX_DEPTH. The timeline's pixels and the canvas's coordinates are
-- exact, in place of doubles.
--
-- Not modelled: rendering, network, WebGL and WebAssembly calls, the canvas's viewport and its hit
-- test of edges, the API routes that only pass the data layer's answers on, the smaller surfaces
-- (response console, drift monitor, command palette), the generated component library, and the
-- repository's Go, Rust and Python programs.
pub mod Prelude
pub mod Types
pub mod Rng
pub mod Merkle
pub mod Seed
pub mod Policy
pub mod Store
pub mod Auth
pub mod Verification
pub mod Watchfloor
pub mod Shell
pub mod Examples
pub mod Kernel
pub mod Ledger
pub mod Drift
pub mod Graph
pub mod Canvas
pub mod Timeline
