-- ===== src/Lib.antt =====
-- A model of the parts of the STARK service on which a proof's integrity and its owner's access rest:
-- the FRI and STIR prover and verifier, the Merkle commitments and the transcript below them, the
-- tower of fields that they work over, the multilinear polynomials, the channel, the store of proofs
-- and the database of users, tokens and sessions.
-- All sources are under stark-stir-fips-security/crates.
--
-- How the parts interact. The prover (deep_ali/src/fri.rs) folds a codeword layer by layer. It puts
-- each layer's rows into a tree (merkle/src/lib.rs), absorbs the root in its transcript
-- (transcript/src/lib.rs, over Poseidon or a hash function) and draws the next challenge from it; the
-- verifier draws the same challenges from the proof and checks the queried openings. Both work over a
-- field of the tower (deep_ali/src/tower_field.rs): the cubic, sextic or octic extension
-- (cubic_ext.rs, sextic_ext.rs, octic_ext.rs beside it). A prover's channel (channel/src/lib.rs)
-- pushes rows into a tree, absorbs the root and opens positions; a verifier's channel absorbs the same
-- root and checks openings. A finished proof goes to the proof store (proof-store/src/lib.rs), and the
-- HTTP service asks the authentication store (auth/src/lib.rs) before it proves.
--
-- The files:
--   Common      numbers, tests, lists, bytes, strings, words, loops and chains of options
--   Hashing     the hash function of the crate hash, a parameter, and what a collision is
--   Merkle      merkle/src/lib.rs: `MerkleTreeChannel` as a record of levels; `finalize`, `open`
--               (open_tree), `verify_opening` (climb is its loop), in Merkle.Compact
--               `commit_compact` and `open_compact`
--   Channel     channel/src/lib.rs: `MerkleProver` and `MerkleVerifier`, each with its transcript
--   Auth        auth/src/lib.rs: the tables as lists of rows; Users, Tokens, Sessions and Devices
--               hold the operations, History a call as a step and a sequence of calls
--   Tower       deep_ali/src/tower_field.rs: the trait `TowerField` as a record of its required
--               items, its provided methods as functions; Tower.Cubic is cubic_ext.rs,
--               Tower.Quadratic the type `QuadExt` of sextic_ext.rs, Tower.Extensions the
--               configurations of sextic_ext.rs and octic_ext.rs (fp2, fp4, fp6, fp8)
--   Poseidon    poseidon/src/lib.rs: the permutation and the derivation of its parameters
--   Transcript  transcript/src/lib.rs: the backends as a data type, a hasher as its message so far
--   Fri         deep_ali/src/fri.rs. Fri itself has the helpers (`ext_pow`, challenges); Sizes the
--               trees' configurations and the queried positions; Layers and Interpolate the folds,
--               quotients and transforms; Data the structs; Commitments the leaves and trees; Prover
--               `fri_build_transcript`, with Prover.Queries for the openings and `deep_fri_prove`;
--               Replay the challenges that `deep_fri_verify` derives, Verifier its checks
--               (Classic, Stir, and Verify for the whole); Rounds the functions `fri_fold_round`
--               and `fri_verify_query`
--   Mle         mle/src/lib.rs: the in-place loops on an explicit buffer
--   ProofStore  proof-store/src/lib.rs: the stored forms; Disk the store, a cache before files;
--               Compact the binary form
--   Tests       concrete instances
--
-- Conventions. `none` is a panic: an index out of range, a failed assertion, a division by zero. In
-- the verifier `some false` is a rejection. Operations that change their receiver return the new one.
-- Machine words are numbers; a cast that can lose bits is written out as a remainder. Loops are
-- recursions on the list they walk over or on their number of rounds. Fuel: `pow_u64` and `ext_pow`
-- have 64 rounds, which clear an exponent below 2^64; `next_power_of_two` and the stages of the
-- Fourier transform have 64 rounds, since each doubles a word; the blocks of a stage have as many
-- rounds as there are values, and `merkle_depth` as many as there are leaves, since each shrinks
-- their number; `fri_sample_z_ell` has the 1000 draws of its source; the trimming of a string has
-- as many rounds as the string is long.
--
-- Parameters. The hash functions, Argon2, hexadecimal coding, serde_json, the file system's failures,
-- the transcript of the channel, the ground field, the domains' generators and inverse transform of
-- arkworks, and the generator of random words of the crate rand are arguments. The clock and random
-- bytes are arguments of each call. The feature `poseidon-accel` is off, threads do
-- not change results, and `debug_assert!` is left out.
--
-- Not modelled: the HTTP routes and the server, the soundness calculator of fri.rs in floating point,
-- traces, streaming and AIR workloads, the crates commitment, public-inputs, poly and fft, and
-- benchmarks, which do not take part in the proving and verifying of a codeword. The crates hash and
-- ark-goldilocks only configure third-party code.
pub mod Common
pub mod Hashing
pub mod Merkle
pub mod Auth
pub mod Tower
pub mod Poseidon
pub mod Transcript
pub mod Fri
pub mod Mle
pub mod ProofStore
pub mod Channel
pub mod Tests
