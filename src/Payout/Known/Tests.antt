-- ===== src/Payout/Known/Tests.antt =====
-- Three queues on chain, two of them revisions of one.
use solonpad_contracts.Payout.Known.Latest.{
  IsAmong, known_queues_again, known_queues_lem, newest, of_key,
}
use solonpad_contracts.Payout.Known.{Queue, Scan, known_queues, latest, put_latest, read_forward}
use solonpad_contracts.Base.{
  All, Option, [], arith, if◌then◌else◌, none, refl, some, true, ℕ, ◌++◌, ◌==◌, ◌∷◌, ◌≡◌, ◌≤◌,
}

abbrev queue : (id revision : ℕ) → Queue
queue id revision = record { id = id; source = 1; asset = 2; epoch = 3; revision = revision }

abbrev other : Queue
other = record { id = 2; source = 4; asset = 2; epoch = 3; revision = 1 }

abbrev at : ℕ → Option Queue
at i =
    if i == 0
    then some (queue 0 1)
    else if i == 1
    then some (queue 1 2)
    else if i == 2
    then some other
    else none

abbrev nothing_read : Scan
nothing_read = record { listed = []; next = 0 }

known_queues_lem_example :
    let out = (known_queues at 8 true nothing_read).0 in
    All (IsAmong ([] ++ read_forward at 8 0)) out
    × (of_key (queue 0 1) out ≤ 1)
    × (newest (queue 0 1) out ≡ newest (queue 0 1) ([] ++ read_forward at 8 0))
known_queues_lem_example = known_queues_lem at 8 true nothing_read (queue 0 1)

known_queues_again_example :
    let (queues, after) = known_queues at 8 true nothing_read in
    known_queues at 8 true after ≡ (queues, after)
known_queues_again_example = known_queues_again at 8 3 nothing_read refl (omega arith) (omega arith)

-- The second revision takes the place of the first.
queues_run : (known_queues at 8 true nothing_read).0 ≡ queue 1 2 ∷ (other ∷ [])
unfolding known_queues read_forward latest put_latest
queues_run = refl
