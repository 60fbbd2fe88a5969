-- ===== src/Lib.antt =====
-- quietwire: a model of the end-to-end encryption of a delay-tolerant mesh messenger.
--
-- The program. Two parties start a session with a hybrid X3DH key exchange
-- (crates/quietwire-e2e/src/x3dh.rs), go on with a Double Ratchet
-- (crates/quietwire-e2e/src/ratchet.rs), and send each frame in a 512-byte cell that relays pass on
-- (crates/quietwire-packet/src/cell.rs). All of it stands on crates/quietwire-crypto, which wraps
-- the cryptographic libraries and keeps keys at rest.
--
-- The files.
--   Base: names, lists and Boolean tests over the native numbers, and `Result`, which has a third
--     case for a panic (a `copy_from_slice` on a wrong length) or an abort.
--   Bytes: byte strings and little-endian numbers.
--   Crypto: quietwire-crypto, one child per source file: Secret (secret.rs, rng.rs; its
--     child Pages has the page of a key in memory, the others its proofs), Aead, Kdf, Hash,
--     X25519, MlKem (mlkem.rs), Ed25519, Hierarchy (hierarchy.rs), Password (password.rs). What the
--     crate calls of other libraries is a record of functions: `Primitives`, `KemLibrary`,
--     `SignatureLibrary`, `Argon2Library`, `System`. What is assumed of them is named where it is used:
--     `HasLengths`, `OpensSealed`, `DhCommutes`, `Decapsulates`, `IsArgon2`,
--     `KeepsPromises`.
--   X3dh: `Initiator::initiate` and `Responder::respond`; Agreement has what both parties
--     derive, Binding what the transcript fixes.
--   Ratchet: ratchet.rs. Header is `Header`, Chain is `Chain` and `Cursor`, Skipped is `SkippedKeys`,
--     Session is `Session`. Under each stand its proofs, named for what they prove.
--     Session/Conversing has two sessions that take turns, for X3dh/Conversation. Session/Mirrors sees
--     a receiver as the set of the numbers that it has opened, for Reordering, and
--     Session/Retains one that keeps the keys of a chain that has ended, for Session/Late.
--   Cell: cell.rs, with Wire, Parse and Relay.
--   FreedBlock: crates/quietwire-crypto-memtest/src/freed_block.rs, the scan of freed memory for a
--     secret. What the load instruction reads is a parameter.
--   Scanning: crates/quietwire-crypto-memtest/src/lib.rs, the allocator that counts freed blocks in
--     which a watched secret is left. Its slots are a list, and a call that takes the lock is an action
--     on them. Starts has what a start of a watch does, Runs any sequence of calls, Counts the counts.
--   Fuzz: tools/fuzz. The parent is src/lib.rs, Targets are x3dh_bundle.rs and
--     x3dh_initial_message.rs, Dialogue is ratchet_session.rs, Reheadered is ratchet_header.rs. A
--     target gives `panic` where an assertion fails; what the generator draws, and the inputs, are
--     arguments. Passing has the targets of X3DH and the run of Reheadered; under Dialogue Invariant
--     has what every conversation keeps, Sends, Receives and Tampers its actions,
--     Journal what the actions come to without a session, Promises what they test, Runs whole runs.
--   Timing: tools/timing/src/main.rs, the benches of the timing tool and the comparisons that they run.
--   Fixtures: crates/quietwire-fixtures/src/lib.rs, the hex decoder.
--   Texts: the texts of the errors, `Display` in error.rs, ratchet.rs and cell.rs.
--   Toy: small arithmetic in place of the libraries, only to apply the theorems to concrete keys.
--
-- How the code is written here. A byte string is a list of numbers, and an array is one whose
-- length a hypothesis or an invariant fixes. `&mut self` is an action on the session that gives a
-- result and the session afterwards: an assignment that ran before a failure stays. A closure or a
-- generator that the code calls is given by the value that it would return. The `u32` of
-- message numbers keep their wrap-around in `next_message_key`; the guards, which stop a chain at
-- 2 000, are why the proofs never meet it.
--
-- Loops. `Cursor::skip_to` runs on fuel, the distance to its target, which is enough, since each
-- round moves the cursor by one; Ratchet/Chain/Schedule has the closed form of what it gives. The
-- eviction of skipped keys is recursion on the list.
--
-- Not modelled: stack scrubbing (stack.rs), which has no value; the wipe of the other secrets on
-- drop; what the test allocator forwards to the system's; how long a bench of the timing tool takes;
-- the fixtures' `load_fixture`, which reads a file; the crates core, route, store, transport and ffi
-- and apps/node, which hold no code yet.
pub mod Base
pub mod Bytes
pub mod Crypto
pub mod Ratchet
pub mod Cell
pub mod X3dh
pub mod FreedBlock
pub mod Scanning
pub mod Fuzz
pub mod Timing
pub mod Fixtures
pub mod Texts
pub mod Toy
