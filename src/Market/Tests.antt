-- ===== src/Market/Tests.antt =====
-- A Wednesday noon, and the Saturday after it.
use solonpad_contracts.Base.{false, inl, inr, refl, true, ◌+◌, ◌<◌, ◌↔◌, ◌≡◌, ◌≤◌}
use solonpad_contracts.Market.{
  NyTime, is_open, market_defaults, market_gate, regular, regular_session, round_the_clock,
  session_state,
}
use solonpad_contracts.Market.Sessions.{market_gate_iff, regular_within, weekend_closed}

abbrev noon : NyTime
noon = record { dow = 3; minute = 720; date = 20_593 }

abbrev saturday : NyTime
saturday = record { dow = 6; minute = 720; date = 20_596 }

market_gate_iff_example :
    (((market_gate market_defaults noon 900 1_000).ok ≡ true) ↔ (
      (is_open (session_state market_defaults noon) ≡ true)
      × (0 < 900)
      × (1_000 ≤ 900 + 86_400 + 1_800)))
    × (((market_gate market_defaults noon 900 1_000).closed ≡ true)
        ↔ (is_open (session_state market_defaults noon) ≡ false))
    × (((market_gate market_defaults noon 900 1_000).ok ≡ false)
        → ((market_gate market_defaults noon 900 1_000).alert ≡ false)
        → (market_gate market_defaults noon 900 1_000).closed ≡ true)
market_gate_iff_example = market_gate_iff market_defaults noon 900 1_000

weekend_closed_example : is_open (session_state market_defaults saturday) ≡ false
weekend_closed_example = weekend_closed market_defaults saturday refl (inr (inl refl))

noon_open : is_open (session_state (record market_defaults { mode = regular }) noon) ≡ true
unfolding session_state regular_session
noon_open = refl

regular_within_example :
    is_open (session_state (record market_defaults { mode = round_the_clock }) noon) ≡ true
regular_within_example = regular_within market_defaults noon refl noon_open
