-- ===== src/Discovery/Tests.antt =====
-- A chain of one log.
use solonpad_contracts.Base.{
  Bool, List, [], arith, if◌then◌else◌, includes, inl, leb, refl, true, ℕ, ◌&&◌, ◌∷◌, ◌≡◌,
}
use solonpad_contracts.Discovery.{
  Config, Item, Scan, Source, earlier, merge_sources, sync, sync_chunks, upsert, upsert_all,
}
use solonpad_contracts.Discovery.Sighted.{
  AllGiven, Answers, IsCovered, IsDistinct, addresses, merge_sources-IsDistinct, sync_covers,
}

abbrev coin : Item
coin = record { id = 3; block = 50; log_index = 2 }

-- A node that has the log, and every block up to 80.
abbrev logs : (from to : ℕ) → List Item
logs from to = if leb from 50 && leb 50 to then coin ∷ [] else []

abbrev has_block : ℕ → Bool
has_block n = leb n 80

logs-Answers : Answers 70 coin logs has_block
logs-Answers from to h confirmed low high =
    let inside : (leb from 50 && leb 50 to) ≡ true = ground arith in rw inside (0, refl)

abbrev fresh_scan : Scan
fresh_scan = record { next = 10; items = [] }

abbrev config : Config
config = record { chunk = 30; confirmations = 5 }

nothing-AllGiven : AllGiven logs []
nothing-AllGiven id j h = absurd (ground arith)

sync_covers_example :
    let after = sync 4 logs has_block config 75 fresh_scan in
    IsCovered coin after × AllGiven logs after.items
sync_covers_example =
    sync_covers 4 coin logs has_block config 75 fresh_scan logs-Answers (inl (omega arith))
      nothing-AllGiven

-- The scan ends behind the confirmed head, with the log known.
sync_run : sync 4 logs has_block config 75 fresh_scan ≡ record { next = 71; items = (3, coin) ∷ [] }
unfolding sync sync_chunks upsert_all upsert earlier
sync_run = refl

abbrev source_at : ℕ → Source
source_at a = record { address = a; first_epoch = 0 }

merge_sources-IsDistinct_example :
    IsDistinct (addresses (merge_sources (source_at 4 ∷ []) (source_at 5 ∷ (source_at 4 ∷ []))))
    × (includes (addresses (merge_sources (source_at 4 ∷ []) (source_at 5 ∷ (source_at 4 ∷ [])))) 5
        ≡ true)
merge_sources-IsDistinct_example =
    merge_sources-IsDistinct (source_at 4 ∷ []) (source_at 5 ∷ (source_at 4 ∷ [])) 5 refl
