-- ===== src/Lib.antt =====
-- ZWA protocol: the Rust crates of crates/ that a matcher, an RFQ service and the compliance
-- circuits share. crates/protocol holds the canonical types, their encodings and the replay store;
-- crates/commitments the frozen commitment schemas over Poseidon; crates/credentials the
-- credential leaf over the same commitments.
--
-- Prelude: the native numbers, lists measured by them (Lists), Boolean tests (Tests), decidable
-- equality as an instance (Classes), bytes and fixed-width words (Words), and the map of the
-- replay store (BTreeMap), an association list.
--
-- Protocol (crates/protocol/src): one module for each file.
--   Lifecycle (lifecycle.rs), Error (error.rs), Numbers (numbers.rs), Values (values.rs) and Intent
--   (intent.rs) hold the data and the small operations. The types that a macro makes are one
--   wrapper, indexed by its kind.
--   Bytes (bytes.rs): `from_slice`, `from_hex`, `to_hex`; Hex has the text codec, RoundTrip the
--   proofs.
--   Field (field.rs): canonical BN254 scalars. Canonical is about the bytes and the modulus, Limbs
--   about the 256-bit arithmetic, Decimal about the decimal text and Unpadded about the text that is
--   printed. The loop that prints has 78 rounds, since 2 ^ 256 is below 10 ^ 78. Values/Wire has the
--   encodings of the field-valued types.
--   Envelope (envelope.rs) and Proof (proof.rs) hold what signed-root envelopes share, and the proof
--   containers with the interfaces of their verifiers; their proofs are in Envelope/Current and
--   Proof/Bounds, those about time in Numbers/Time.
--   Display has the texts of `Display` in error.rs, lifecycle.rs and numbers.rs; the decimal text of an
--   unsigned integer, which the standard library prints, is written out in it. Numbers is about that
--   text, Words about the fixed texts, Heads, Problems and Errors about the messages of errors.
--   Replay (replay.rs): the store and its methods. Record has the body of each method, which works on
--   the record behind `&mut TradeRecord` and may write before it returns an error. Calls has the
--   calls of clients as data, so that a list of them is any interleaving. Machine has the abstract
--   store, one machine for each commitment, which Diagram, Expiry, Invariant, Terminal, Traces,
--   History, Progress and Interleaving work on. Spec has the life of a trade as tables, written apart
--   from the code, which its runs are compared with, and Origin is about where its trades come from.
--
-- Commitments (crates/commitments/src): AssetBase (asset_base.rs) and Receiver (receiver.rs) are
-- the limb codecs, Domain (domain.rs) the domain separators, Poseidon (poseidon.rs) the hash,
-- Trade (trade.rs) the staging, with the schema in Stages, what a commitment binds in Binding and,
-- for a recipient, in Recipient, and the checks in Verify. Bytes is about the commitment to bytes:
-- Chunks has its chunks, Chain the hashes, one after another, and Ends the chains with one end.
--
-- Credentials (crates/credentials/src): Values has the identifiers, codes and expiries of ids.rs
-- and values.rs, with their ranges in Ranges, and Credential the active credential leaf
-- (credential.rs): Binding is about what it binds, Authorizes about the comparison of receivers.
-- Envelope (envelope.rs) has the two kinds of root envelopes: Signed is about the bytes that are
-- signed, Fresh about the path from the parts to a structurally valid envelope. Display has the
-- texts.
--
-- Circuits (circuits): Templates has the templates that both circuits use. Shared (circuits/shared)
-- has the Merkle tree of trade-commitment-v1.js: MerkleTree has buildMerkleTree and merkleProof, its
-- Levels, Binding and Total are about them, and MerklePath has the hashing along a path. BigInts has
-- the limbs and checks of the reference, TradeCommitment and EligibilitySchema (eligibility-v1.js) its
-- commitments, and an Agreement in each compares them with the crates. Membership is about the
-- templates' Merkle proofs in such a tree.
--   Eligibility has the signals and the constraints of the eligibility circuit. Its Stages compares
--   what a witness hashes with what the crates hash, Shown and Soundness are about the credential and
--   the intent of such a witness, Trees has the trees of credentials and of allowed pairs, and Issued
--   is about a witness for the roots of such trees. Signals has the signals that a credential and an
--   intent give, Completeness is about their constraints, and Prover about those with the paths that
--   the trees give.
--   Provenance has the provenance circuit: Soundness, Completeness, Issuances (the tree of issuances),
--   Issued and Prover in the same way.
--   Settlement is about a witness of each circuit for one trade commitment.
--   Counter, Holder, Authority and Issuer have templates, a trade, a credential and trees for the
--   witnesses.
--
-- A Rust integer is a native number; that it is in the range of its type is a hypothesis where a
-- theorem needs it (IsU64, IsU128, IsByte), and arithmetic that may wrap has its modulus written
-- out. An array is a list, whose length is a hypothesis (IsBytes). A string is the list of its
-- bytes. A `Result` is a value with an error of `ProtocolError`. A panic (`expect`) is `none`. The
-- chunks of a byte string are cut with one step for each byte.
--
-- Poseidon is the crate light-poseidon, a parameter `LightPoseidon`; `IsCircom` says what that
-- crate documents: it hashes one to twelve inputs to a scalar below the modulus, and fails on
-- others. Counter is such a hasher, for the witnesses; the modules called Runs hold the witnesses
-- and tests.
--
-- The templates of circomlib and of circuits/shared/zk-origin, a copy of another project's library,
-- are a parameter `Templates`, and `IsLibrary` says what they document.
--
-- The hash of the JavaScript reference, that of circomlibjs, is a parameter too, and `IsCircomlib` says
-- that it agrees with light-poseidon.
--
-- Not modelled: the Debug texts; of the JavaScript reference the way back from limbs to text, the
-- commitment to bytes, the version 1 leaf and the texts of results and exceptions; tests, scripts and
-- fixtures. The directories matcher, rfq, frontend and crates/zcash-adapter hold no code.
pub mod Prelude
pub mod Protocol
pub mod Commitments
pub mod Credentials
pub mod Circuits
