-- ===== src/Health/Levels/Tests.antt =====
-- A fleet with one warning.
use solonpad_contracts.Base.{[], arith, ◌+◌, ◌<◌, ◌↔◌, ◌∷◌, ◌≡◌}
use solonpad_contracts.Health.Levels.{fail, fine, summarize}
use solonpad_contracts.Health.Levels.Worst.{summarize_lem}

summarize_lem_example :
    let s = summarize (0 ∷ (1 ∷ (0 ∷ []))) in
    (s.count_ok + s.count_warn + s.count_fail ≡ 3)
    × ((s.exit_code ≡ fail) ↔ (0 < s.count_fail))
    × ((s.exit_code ≡ fine) ↔ (s.count_warn + s.count_fail ≡ 0))
summarize_lem_example =
    summarize_lem (0 ∷ (1 ∷ (0 ∷ []))) (omega arith, (omega arith, (omega arith, tt)))
