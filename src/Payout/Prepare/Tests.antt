-- ===== src/Payout/Prepare/Tests.antt =====
-- A vault with one allocation of a source that has three participants, of whom a call registers one; the world
-- counts them, then the sealed index (4) and the open queue (5).
use solonpad_contracts.Payout.Prepare.Registered.{Registers, register_source_completes}
use solonpad_contracts.Payout.Prepare.{
  Chain, Lane, Op, State, create_entry_source, ensure_queue, open_queue, prepare_allocation,
  register, register_pages, register_source, seal_index, seal_index_of, send,
}
use solonpad_contracts.Base.{
  List, [], arith, leb, map, min, refl, some, true, ℕ, ◌+◌, ◌∷◌, ◌≡◌, ◌≤◌,
}

abbrev move : ℕ → Op → ℕ
move w (register source cursor) = min 3 (w + 1)
move w (seal_index id) = 4
move w (open_queue k) = 5
move w (create_entry_source lane) = w

abbrev vault : Chain ℕ
vault = record {
  next_entry_id = λ w. 1;
  allocation = λ w id. record { source = 1; asset = 2; revision = 1 };
  source_cursor = λ w source. min w 3;
  required_bound = λ w source. 3;
  source_bound = λ w id. 3;
  is_index_sealed = λ w id. leb 4 w;
  is_queued = λ w k. leb 5 w;
  vault = 9;
  vault_pool = 8;
  snapshot =
      λ w source epoch. some (record { revision = 2; upper_bound = 3; asset = 2; budget = 1 });
  kind_of = λ source. 1;
  pool_of = λ source. 8;
  ledger_lane = λ w lane. true;
  funded = λ w lane. 0;
  staged = λ w lane. 0;
  entry_source = λ w lane. 1;
  credit_total27 = λ w lane epoch. 1;
  call = λ w op. (move w op, true);
}

abbrev start : State ℕ
start = record { world = 0; sends = [] }

abbrev lanes : List Lane
lanes = record { lane = 6; first_epoch = 0 } ∷ []

vault-Registers : Registers vault 1
vault-Registers = record {
  confirms = λ w op. refl;
  advances = λ w source cursor. omega arith;
  bound_kept = λ w source cursor. refl;
}

register_source_completes_example :
    let (said, after) = register_source vault 1 start in
    (said ≡ true) × (vault.required_bound after.world 1 ≤ vault.source_cursor after.world 1)
register_source_completes_example =
    register_source_completes vault 1 vault-Registers 1 start (omega arith)

-- Three registrations, the index and the queue.
prepare_run :
    map (λ c. c.0) (prepare_allocation vault 1 start).sends ≡ 4 ∷ (3 ∷ (2 ∷ (1 ∷ (0 ∷ []))))
unfolding prepare_allocation register_source register_pages seal_index_of ensure_queue send
prepare_run = refl
