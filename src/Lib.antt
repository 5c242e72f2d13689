-- ===== src/Lib.antt =====
-- Proofs about reth-proofs: a guest program that checks an Ethereum block against an execution
-- witness inside a zkVM, the host code that makes its input, and the orchestrators that have blocks
-- proved.
--
-- The parts, and the files that model them (paths from the repository's root):
--   State          reth-trie-risc0-zkvm/src: the Ethereum state as a state trie and storage tries.
--     State.Mpt      mpt.rs: MptNode
--     State.Build    lib.rs: build_validated_tries, from_execution_witness
--     State.Validate lib.rs: validate_state_trie, validate_storage_tries
--     State.Update   lib.rs: update, loop by loop
--     State.Read     lib.rs: account, storage, compute_state_root, the StatelessTrie instance
--   Core           core/src: the inputs of the guest and the database of the EVM.
--     Core.Headers   lib.rs: AncestorHeaders
--     Core.Signers   lib.rs: SignersHint, CurrentBlock
--     Core.Bytecodes lib.rs: Bytecodes
--     Core.TrieDb    triedb.rs
--     Core.Input     input.rs, input_alt.rs
--   Guest          zkvm-common-guest/src/lib.rs, with two helpers of core/src/lib.rs
--   Frame          prepare_zkvm_input of gevulot2 and gevulot3, zkvm/zisk-guest/src/main.rs
--   Inputs         prepare_input of gevulot2 and gevulot3: fetched from a node, and made into an
--                  input
--   Gevulot3       gevulot3/src: the main loop (Gevulot3.Listener), the queue, the worker, the
--                  webhook server, and all of them as a relation of steps in any order
--                  (Gevulot3.System); Gevulot3.Channels has what they call of async_channel and
--                  tokio. Gevulot3.Program puts the start and the shutdown round them;
--                  Gevulot3.Submit has submit_proof_job, Gevulot3.Reports what a job reports to
--                  Ethproofs
--   Ethproofs      ethproofs/src/lib.rs: the requests of the three reports
--   Gevulot2       gevulot2/src: a turn of the main loop, the polling of a session, the commands of
--                  cli.rs with their files (Gevulot2.Commands)
--   Prototype      prototype/src: execute_block and the filter of lib.rs, format_execution_witness
--                  of utils.rs
--     Prototype.Rpc    lib.rs, main.rs: blocks and witnesses from a node or from files, and runs on
--                  them
--     Prototype.Debug  main.rs, triedb_utils.rs: the debugging of a stored block
--   Hosts          zkvm-common-host/src, zkvm/risc0-host/src, zkvm/risc0-guest/src: the stored
--                  block run and proved on the local machine, by a Bonsai server (Hosts.Bonsai),
--                  and segment by segment (Hosts.Segments)
--   Recursive      zkvm/risc0-host/src/main-recursive.rs: segments proved, lifted and joined
--   Kzg            zkvm/zisk-guest/src/kzg.rs: the check of KZG proofs
--   Prelude, Outcome, Table  shared: Boolean tests and lists, how a call ends, HashMap
--   External       what is called of other crates, with the behaviour that is relied on
--   Tests          the theorems of the list below at concrete inputs
--
-- A host makes a ZkvmInput from a block and a witness (Core.Input, on State.Build); an orchestrator
-- fetches these and frames it (Inputs, Frame); the guest validates it, executes the block and
-- compares the root of the updated state with the block's header (Guest, on State.Update).
--
-- A function that can panic or fail returns an Outcome, which keeps a panic apart from an Err.
-- 32-byte words, addresses' hashes and U256 are natural numbers, bytes are lists of numbers; block
-- numbers wrap at 2 ^ 64 where the code subtracts, and the length of a frame at 2 ^ 32. A HashMap
-- is an association list, which is iterated in its order; where the code sorts, the model sorts
-- (State.Update.Iteration compares the orders).
--
-- Fuel: the polling loop of a session runs on fuel, and ends on any that exceeds the number of
-- RUNNING answers; the rounds of join_many run on as much fuel as there are receipts, and each
-- round leaves fewer; draining the prove queue runs on its capacity, which it does not exceed. All
-- other loops are structural.
--
-- Parameters, with named hypotheses: the trie of risc0-ethereum-trie (External.TrieLaws; a copy of
-- a published crate), RLP and account types, sealing and signatures (Core.Alloy), consensus,
-- execution and bincode (Guest.Zkvm), the Bonsai client (Gevulot2.Bento), channels
-- (Gevulot3.Channels), the coordinator's gRPC client (Gevulot3.Submit), base64 (Ethproofs.Encoder),
-- the node's RPC and JSON (Prototype.Rpc), risc0_zkvm (Hosts.Risc0, Recursive.ProverServer).
-- External.Toy and Tests have concrete ones that meet the hypotheses.
--
-- Files are tables from a number, which is the block's in their name or stands for a path; writing
-- succeeds or not, and a failed write leaves nothing that is looked at again.
--
-- Not modelled: the trie crate, which is a copy of RISC Zero's; the constants of the chain
-- specifications, of which the guest's is fixed in its parameter of consensus and execution, and
-- the host's, which is another, in that of Prototype; a receive by the worker in the middle of a
-- drain of the queue, since a turn of the main loop of gevulot3 is one step; the wording of what is
-- printed, logged or written for debugging; clocks and timing; the sending of reports, which are
-- tasks of their own; what the programs configure at their start; build scripts and tests.
pub mod Prelude
pub mod Outcome
pub mod Table
pub mod External
pub mod State
pub mod Core
pub mod Guest
pub mod Frame
pub mod Inputs
pub mod Gevulot2
pub mod Gevulot3
pub mod Recursive
pub mod Prototype
pub mod Hosts
pub mod Ethproofs
pub mod Kzg
pub mod Tests
