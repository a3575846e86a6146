-- ===== src/Round/Sealing/Tests.antt =====
-- A source whose epoch 4 is sealed and whose epoch 5 can be.
use solonpad_contracts.Round.Batch.{is_sealable}
use solonpad_contracts.Round.Sealing.Complete.{IsMarked, StaysFinal, seal_source_complete, seals_in}
use solonpad_contracts.Round.Sealing.{Chain, Source, State, seal_source}
use solonpad_contracts.Base.{
  [], arith, false, includes, inl, ltb, none, refl, some, true, ℕ, ◌+◌, ◌∷◌, ◌≡◌,
}

abbrev source : Source
source = record { address = 1; first_epoch = 3 }

abbrev chain_at : Chain ℕ
chain_at = record {
  epoch_view = λ w source epoch. record {
    is_sealed = ltb epoch 5;
    budget = 10;
    next_round_at = none;
    now_sec = 0;
  };
  lane_sealed = λ w lane epoch. false;
  lane_credit27 = λ w lane epoch. 0;
  carry_pending = λ w lane. false;
  ledger_lane = λ w lane. true;
  native_available = λ w lane. 0;
  entry_source = λ w lane. 1;
  simulates = λ w op. true;
  call = λ w op. (w + 1, true);
}

abbrev start : State ℕ
start = record { world = 0; marks = (1, 5) ∷ []; sends = [] }

start-IsMarked : IsMarked chain_at 7 30 source start
unfolding IsMarked
start-IsMarked = λ e low. inl (ground arith)

epoch_sealable : is_sealable (some (chain_at.epoch_view 0 1 5)) ≡ true
unfolding is_sealable
epoch_sealable = refl

stays_final : StaysFinal chain_at 7 30 source
stays_final = λ w op e h. h

seal_source_complete_example :
    (includes (seals_in chain_at 7 30 1 (seal_source chain_at 7 30 source start).sends) 5 ≡ true)
    × IsMarked chain_at 7 30 source (seal_source chain_at 7 30 source start)
seal_source_complete_example =
    seal_source_complete chain_at 7 30 source start 5 stays_final start-IsMarked (omega arith)
      (omega arith) (omega arith) epoch_sealable
