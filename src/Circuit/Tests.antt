-- ===== src/Circuit/Tests.antt =====
-- The theorems on circuit/common/src/lib.rs at a concrete sponge over a modulus of 2^66, and runs of
-- the definitions.
use native.Mathlib.Nat.{mod-lt}
use shielded_ledger_hivemind.Common.{
  ℕ, ◌+◌, ◌*◌, ◌%◌, ◌^◌, ◌≤◌, ◌<◌, ◌≡◌, ◌≢◌, refl, ◌∙◌, arith, Bool, true, false, some, List, [],
  ◌∷◌, suc, ap, length, get_or, ok, ◌↔◌, ◌⊎◌,
}
use shielded_ledger_hivemind.Circuit.Row.{Row}
use shielded_ledger_hivemind.Circuit.Hash.{
  Poseidon, Note, hash_n, derive_nf, note_commitment, cm, nf,
}
use shielded_ledger_hivemind.Circuit.Range.{enforce_u64_range, range_exact}
use shielded_ledger_hivemind.Circuit.Membership.{
  AllBelow, assign_path, marked_path, merkle_root_gadget, merkle_root_gadget-Opens,
  Opens-merkle_root_gadget,
}
use shielded_ledger_hivemind.Circuit.Tree.{
  DenseTree, IncrementalTree, new, append, root, path, tree_levels, zero_hashes,
}
use shielded_ledger_hivemind.Circuit.Tree.Nodes.{tree_root}
use shielded_ledger_hivemind.Circuit.Tree.Append.{Holds, new-Holds, append-Holds}
use shielded_ledger_hivemind.Circuit.Tree.Agree.{append_all, append_all-root}
use shielded_ledger_hivemind.Circuit.Tree.Path.{
  Opens, Collision, path_index, path-Opens, path-length,
}
use shielded_ledger_hivemind.Circuit.Deposit.{
  DepositCircuit, Deposits, deposit_constraints, deposit_constraints-exact,
}
use shielded_ledger_hivemind.Circuit.Transfer.{TransferVars, constraints, generate_constraints}
use shielded_ledger_hivemind.Circuit.Transfer.Soundness.{
  EmbedsU64, TransferStatement, constraints-TransferStatement, spent_cm, constraints-spent_leaves,
}
use shielded_ledger_hivemind.Circuit.Transfer.Completeness.{
  HashesBelow, IsBalanced, honest_path, honest_vars, constraints-honest_vars, honest_transfer,
  generate_constraints_honest,
}

-- A sponge whose state is one number.
abbrev toy : Poseidon ℕ ℕ
toy = record {
  of_u64 = λ v. v;
  new_note = 5;
  new_tree = 11;
  set_state0 = λ x s. s + x;
  absorb = λ x s. (s * 31 + x + 7) % 2 ^ 66;
  squeeze = λ s. s % 2 ^ 66;
}

abbrev modulus : ℕ
modulus = 2 ^ 66

large : 2 ^ 66 ≤ modulus
large = omega arith

toy-EmbedsU64 : EmbedsU64 toy
toy-EmbedsU64 v h = refl

toy-HashesBelow : HashesBelow modulus toy
toy-HashesBelow s = mod-lt s (omega arith)

range_exact_example :
    ((bits : ℕ → Bool) × (enforce_u64_range (2 ^ 66) bits 1000 ≡ ok tt)) ↔ (1000 < 2 ^ 64)
range_exact_example = range_exact (2 ^ 66) 1000 large

abbrev leaves3 : List ℕ
leaves3 = 7 ∷ 8 ∷ 9 ∷ []

append_all-root_example :
    (t : IncrementalTree ℕ) × (append_all toy (new toy) leaves3 ≡ some t)
    × (t.next_index ≡ length leaves3)
    × (root toy (record { leaves = leaves3 }) ≡ some t.root)
append_all-root_example = append_all-root toy leaves3 (omega arith)

append-Holds_example :
    (t : IncrementalTree ℕ) × (append toy (new toy) 7 ≡ some (t, t.root)) × Holds toy t (7 ∷ [])
append-Holds_example = append-Holds toy (new toy) [] 7 (new-Holds toy) (omega arith)

abbrev tree3 : DenseTree ℕ
tree3 = record { leaves = leaves3 }

path-Opens_example : Opens toy (path toy tree3 2) 9 (tree_root toy leaves3)
path-Opens_example = path-Opens toy tree3 2 (omega arith)

path_below : AllBelow modulus (assign_path (path toy tree3 2))
unfolding path zero_hashes
path_below =
    honest_path modulus toy large toy-EmbedsU64 toy-HashesBelow leaves3 2
      (omega arith, (omega arith, (omega arith, tt)))

opened_gadget :
    merkle_root_gadget modulus toy 9 (assign_path (path toy tree3 2)) ≡ ok (tree_root toy leaves3)
opened_gadget =
    Opens-merkle_root_gadget modulus toy (omega arith) 9 (tree_root toy leaves3) (path toy tree3 2)
      path_below path-Opens_example

merkle_root_gadget-Opens_example :
    Opens toy (marked_path (assign_path (path toy tree3 2))) 9 (tree_root toy leaves3)
merkle_root_gadget-Opens_example =
    merkle_root_gadget-Opens modulus toy (omega arith) 9 (tree_root toy leaves3)
      (assign_path (path toy tree3 2)) path_below opened_gadget

-- Two notes of value 6 and 4, spent for one of 5 and one of 2, with fee 1 and 2 withdrawn.
abbrev first_in : Note ℕ
first_in = record { v = 6; nk = 1; rho = 2; rcm = 3 }

abbrev second_in : Note ℕ
second_in = record { v = 4; nk = 1; rho = 5; rcm = 6 }

abbrev first_out : Note ℕ
first_out = record { v = 5; nk = 9; rho = nf toy first_in; rcm = 7 }

abbrev second_out : Note ℕ
second_out = record { v = 2; nk = 1; rho = nf toy second_in; rcm = 8 }

abbrev leaves_in : List ℕ
leaves_in = cm toy first_in ∷ cm toy second_in ∷ []

cm-below : (n : Note ℕ) → cm toy n < modulus
unfolding cm note_commitment hash_n
cm-below n = toy-HashesBelow _

nf-distinct : nf toy first_in ≢ nf toy second_in
unfolding nf derive_nf hash_n
nf-distinct e = absurd (omega arith)

balanced_example : IsBalanced toy modulus leaves_in first_in 0 second_in 1 first_out second_out 1 2
balanced_example = record {
  leaves_below = (cm-below first_in, (cm-below second_in, tt));
  index1_below = omega arith;
  index2_below = omega arith;
  leaf1 = refl;
  leaf2 = refl;
  distinct = nf-distinct;
  chained1 = refl;
  chained2 = refl;
  in_range = (omega arith, omega arith, omega arith, omega arith, omega arith, omega arith);
  balanced = omega arith;
}

generate_constraints_honest_example :
    generate_constraints modulus toy
      (honest_transfer toy leaves_in (first_in, 0) (second_in, 1) first_out second_out 1 2 77)
    ≡ ok tt
generate_constraints_honest_example =
    generate_constraints_honest modulus toy large toy-EmbedsU64 toy-HashesBelow leaves_in first_in 0
      second_in 1 first_out second_out 1 2 77 balanced_example

abbrev transfer_vars : TransferVars
transfer_vars = honest_vars toy leaves_in (first_in, 0) (second_in, 1) first_out second_out 1 2 77

transfer_satisfied : constraints modulus toy true false transfer_vars ≡ ok tt
transfer_satisfied =
    constraints-honest_vars modulus toy large toy-EmbedsU64 toy-HashesBelow leaves_in first_in 0
      second_in 1 first_out second_out 1 2 77 balanced_example

path_in_below :
    (index : ℕ) → AllBelow modulus (assign_path (path toy (record { leaves = leaves_in }) index))
path_in_below index =
    honest_path modulus toy large toy-EmbedsU64 toy-HashesBelow leaves_in index
      balanced_example.leaves_below

constraints-TransferStatement_example : TransferStatement toy transfer_vars
constraints-TransferStatement_example =
    constraints-TransferStatement modulus toy large toy-EmbedsU64 transfer_vars (path_in_below 0)
      (path_in_below 1) transfer_satisfied

length-assign_path : (ps : List (Row ℕ × ℕ)) → length (assign_path ps) ≡ length ps
unfolding assign_path
length-assign_path [] = refl
length-assign_path ((row, pos) ∷ ps) = ap suc (length-assign_path ps)

length-assigned :
    (index : ℕ)
    → length (assign_path (path toy (record { leaves = leaves_in }) index)) ≡ tree_levels
length-assigned index =
    length-assign_path (path toy (record { leaves = leaves_in }) index)
    ∙ path-length toy (record { leaves = leaves_in }) index

constraints-spent_leaves_example :
    ((spent_cm toy transfer_vars.in1
        ≡ get_or leaves_in (path_index (marked_path transfer_vars.in1.path)) 0)
      × (spent_cm toy transfer_vars.in2
          ≡ get_or leaves_in (path_index (marked_path transfer_vars.in2.path)) 0))
    ⊎ Collision toy
constraints-spent_leaves_example =
    constraints-spent_leaves modulus toy large toy-EmbedsU64 transfer_vars leaves_in refl
      (path_in_below 0) (path_in_below 1) (length-assigned 0) (length-assigned 1) transfer_satisfied

abbrev deposit : DepositCircuit
deposit = record {
  cm = some (note_commitment toy 6 11 2 3);
  v_pub = some 6;
  pk = some 11;
  rho = some 2;
  rcm = some 3;
}

deposit_constraints-exact_example : (deposit_constraints toy deposit ≡ ok tt) ↔ Deposits toy deposit
deposit_constraints-exact_example = deposit_constraints-exact toy deposit
