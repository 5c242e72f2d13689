-- ===== src/Tests/HostExamples.antt =====
-- The programs that run a stored block, at the example block under two numbers: its own, and that
-- of the block which the hosts read.
use reth_proofs.Prelude.{
  ℕ, ◌≡◌, refl, true, Option, none, some, [], ◌∷◌, ◌==◌, if◌then◌else◌, arith, subst, sym, ap,
}
use native.Mathlib.Decide.{ℕ_discrete}
use reth_proofs.Outcome.{ok}
use reth_proofs.Table.{lookup, insert}
use reth_proofs.External.{Bytes}
use reth_proofs.External.Toy.{toy}
use reth_proofs.State.{ExecutionWitness}
use reth_proofs.Prototype.{Node, full_txs}
use reth_proofs.Prototype.Rpc.{
  Rpc, Files, create_provider, get_last_block_number, fetch_full_block, fetch_block_witness,
  save_block_in_file, load_block_from_file, save_block_witness_in_file,
  load_block_witness_from_file, store_latest_block_and_witness, execute_block_offline,
  execute_block_with_rpc,
}
use reth_proofs.Prototype.Rpc.Offline.{RpcLaws, execute_block_offline-stored}
use reth_proofs.Tests.World.{toy_alloy, toy_zkvm, witness, block}

-- The node knows the one block.
abbrev pub node : Node toy_alloy
node = record {
  RpcBlock = Unit;
  Tx = ℕ;
  transactions = λ b. full_txs block.transactions;
  rpc_block_to_consensus_block = λ b. block;
  try_recover = λ b. some (record { block = b; senders = (42 ∷ []) ∷ [] });
}

-- The one witness has the text `[1]`, and so has the one block.
abbrev pub text_of : {w : ExecutionWitness} → Dec (w ≡ witness) → Option Bytes
text_of (yes same) = some (1 ∷ [])
text_of (no other) = none

abbrev pub witness_of : Bytes → Option ExecutionWitness
witness_of (b ∷ []) = some witness
witness_of _ = none

pub ExecutionWitness-discrete : (v w : ExecutionWitness) → Dec (v ≡ w)
ExecutionWitness-discrete = hlevel ℕ_discrete

pub text_of_witness : (d : Dec (witness ≡ witness)) → text_of d ≡ some (1 ∷ [])
text_of_witness (yes same) = refl
text_of_witness (no other) = absurd (other refl)

witness_of-text_of :
    (w : ExecutionWitness) (d : Dec (w ≡ witness)) (json : Bytes)
    → text_of d ≡ some json
    → witness_of json ≡ some w
witness_of-text_of w (yes same) json h =
    let one : 1 ∷ [] ≡ json = ground (arith, h) in
    subst (λ t. witness_of t ≡ some w) one (ap some (sym same))
witness_of-text_of w (no other) json h = cc

abbrev pub rpc : Rpc toy_alloy node
rpc = record {
  Provider = ℕ;
  new_http = λ url. some 5;
  get_block_number = λ p. some 10;
  get_block_by_number = λ p number. if number == 10 then some (some tt) else none;
  debug_execution_witness = λ p number. some witness;
  number_of = λ b. 10;
  block_to_string = λ b. some (2 ∷ []);
  block_from_str = λ json. some tt;
  witness_to_string = λ w. text_of (ExecutionWitness-discrete w witness);
  witness_from_str = witness_of;
  stateless_validation = λ b keys w. ok tt;
}

number_of-asked :
    (number : ℕ)
    → (if number == 10 then some (some (tt {0})) else none) ≡ some (some tt)
    → 10 ≡ number
number_of-asked number h = ground arith

rpc-RpcLaws : RpcLaws toy_alloy node rpc
rpc-RpcLaws = record {
  block_from-to = λ b json h. refl;
  witness_from-to = λ w json h. witness_of-text_of w (ExecutionWitness-discrete w witness) json h;
  number_of-asked = λ p number b h. number_of-asked number h;
}

-- The files of the block under its own number, and under that of the hosts.
abbrev pub files_of : ℕ → Files
files_of number = record {
  full_block = (number, 2 ∷ []) ∷ [];
  execution_witness = (number, 1 ∷ []) ∷ [];
  writable = true;
}

abbrev no_files : Files
no_files = record { full_block = []; execution_witness = []; writable = true }

stored : store_latest_block_and_witness toy_alloy node rpc (7 ∷ []) no_files ≡ ok (files_of 10)
unfolding store_latest_block_and_witness create_provider get_last_block_number fetch_full_block
    fetch_block_witness save_block_in_file save_block_witness_in_file insert
stored = rw (text_of_witness (ExecutionWitness-discrete witness witness))

execute_block_offline-stored_example :
    (p : ℕ) × (create_provider toy_alloy node rpc (7 ∷ []) ≡ ok p)
    × (number : ℕ) × (get_last_block_number toy_alloy node rpc p ≡ ok number)
    × (execute_block_offline toy_alloy node rpc toy toy_zkvm (files_of 10) number
        ≡ execute_block_with_rpc toy_alloy node rpc toy toy_zkvm (7 ∷ []) number)
execute_block_offline-stored_example =
    execute_block_offline-stored toy_alloy node rpc rpc-RpcLaws toy toy_zkvm (7 ∷ []) no_files
      (files_of 10) stored

pub loaded_block :
    (number : ℕ) → load_block_from_file toy_alloy node rpc (files_of number) number ≡ ok tt
unfolding load_block_from_file lookup
loaded_block number = ground arith

pub loaded_witness :
    (number : ℕ)
    → load_block_witness_from_file toy_alloy node rpc (files_of number) number ≡ ok witness
unfolding load_block_witness_from_file lookup
loaded_witness number = ground arith
