-- ===== src/Discovery/Sighted.antt =====
-- Every log below the cursor is known by its earliest sighting, in whatever order the logs came.
use solonpad_contracts.Base.{
  Bool, Bool-cases, List, Option-cases, [], arith, false, get_elem?, if_lem, includes, includes_or,
  inl, inr, ltb, min, not_ltb→le, refl, some, subst, suc, sym, true, zero, ℕ, ℕ_cases, ◌++◌, ◌+◌,
  ◌-◌, ◌<◌, ◌∙◌, ◌∷◌, ◌≡◌, ◌≤◌, ◌⊎◌,
}
use solonpad_contracts.Base.Dict.{Dict, insert, lookup, lookup-insert_ne, lookup-insert_self}
use solonpad_contracts.Discovery.{
  Config, Item, Scan, Source, earlier, keeps_first, merge_sources, sync, sync_chunks, unseen,
  upsert, upsert_all,
}

-- The sighting `j` is not later than `i`: an earlier block, or the same block and a log not behind.
abbrev pub NotLater : (j i : Item) → Type 0
NotLater j i = (j.block < i.block) ⊎ ((j.block ≡ i.block) × (j.log_index ≤ i.log_index))

-- A sighting that the node gave for some range.
abbrev pub IsGiven : ((from to : ℕ) → List Item) → Item → Type 0
IsGiven logs j = (from : ℕ) × (to : ℕ) × (n : ℕ) × (get_elem? (logs from to) n ≡ some j)

-- Whatever is recorded for an id is a sighting of that id, given by the node.
abbrev pub AllGiven : ((from to : ℕ) → List Item) → Dict Item → Type 0
AllGiven logs items = (id : ℕ) (j : Item) → lookup id items ≡ some j → (j.id ≡ id) × IsGiven logs j

-- The record of a sighting's id is a sighting that is not later.
abbrev pub IsKnown : Item → Dict Item → Type 0
IsKnown i items = (j : Item) × (lookup i.id items ≡ some j) × NotLater j i

earlier-NotLater : (i j : Item) → earlier i j ≡ false → NotLater j i
unfolding earlier
earlier-NotLater i j h = ground arith

earlier_moves : (i j k : Item) → NotLater j i → earlier k j ≡ true → NotLater k i
unfolding earlier
earlier_moves i j k a b = ground arith

upsert_self : (i : Item) (items : Dict Item) → IsKnown i (upsert i items)
unfolding upsert
upsert_self i items = elim (Option-cases (lookup i.id items)) [
  | inl missing ↦ rw missing (i, lookup-insert_self i.id i items, inr (refl, omega arith))
  | inr (j, there) ↦ elim (Bool-cases (earlier i j)) [
    | inl before ↦ rw (there, before) (i, lookup-insert_self i.id i items, inr (refl, omega arith))
    | inr after ↦ rw (there, after) (j, there, earlier-NotLater i j after)
  ]
]

upsert_keeps : (i k : Item) (items : Dict Item) → IsKnown i items → IsKnown i (upsert k items)
unfolding upsert
upsert_keeps i k items (j, there, le) = elim (Bool-cases (keeps_first (lookup k.id items) k)) [
  | inr dropped ↦ rw dropped (j, there, le)
  | inl taken ↦ elim (ℕ_cases i.id k.id) [
    | inr differ ↦ rw taken (j, lookup-insert_ne i.id k.id k items differ ∙ there, le)
    | inl same ↦
        let here : lookup k.id items ≡ some j = subst (λ x. lookup x items ≡ some j) same there in
        let before : earlier k j ≡ true = rw here at taken in
        let new : lookup i.id (insert k.id k items) ≡ some k =
          subst (λ x. lookup x (insert k.id k items) ≡ some k) (sym same)
            (lookup-insert_self k.id k items) in
        rw taken (k, new, earlier_moves i j k le before)
  ]
]

item_inj : (k j : Item) → some k ≡ some j → k ≡ j
item_inj k j h = ground arith

upsert-AllGiven :
    (logs : (from to : ℕ) → List Item) (k : Item) (items : Dict Item)
    → IsGiven logs k
    → AllGiven logs items
    → AllGiven logs (upsert k items)
unfolding upsert
upsert-AllGiven logs k items given all id j there = elim (ℕ_cases id k.id) [
  | inr differ ↦
      let kept : lookup id (upsert k items) ≡ lookup id items =
        if_lem (λ (d : Dict Item). lookup id d ≡ lookup id items)
          (keeps_first (lookup k.id items) k) (λ taken. lookup-insert_ne id k.id k items differ)
          (λ dropped. refl) in
      all id j (sym kept ∙ there)
  | inl same ↦ elim (Bool-cases (keeps_first (lookup k.id items) k)) [
    | inl taken ↦
        let found : lookup id (insert k.id k items) ≡ some j = rw taken at there in
        let new : lookup id (insert k.id k items) ≡ some k =
          subst (λ x. lookup x (insert k.id k items) ≡ some k) (sym same)
            (lookup-insert_self k.id k items) in
        let equal : k ≡ j = item_inj k j (sym new ∙ found) in
        subst (λ x. (x.id ≡ id) × IsGiven logs x) equal (sym same, given)
    | inr dropped ↦ let found : lookup id items ≡ some j = rw dropped at there in all id j found
  ]
]

upsert_all_keeps :
    (i : Item) (logs : List Item) (items : Dict Item)
    → IsKnown i items
    → IsKnown i (upsert_all logs items)
unfolding upsert_all
upsert_all_keeps i [] items h = h
upsert_all_keeps i (k ∷ ks) items h =
    upsert_all_keeps i ks (upsert k items) (upsert_keeps i k items h)

upsert_all-AllGiven :
    (logs : (from to : ℕ) → List Item) (ks : List Item) (items : Dict Item)
    → ((n : ℕ) (k : Item) → get_elem? ks n ≡ some k → IsGiven logs k)
    → AllGiven logs items
    → AllGiven logs (upsert_all ks items)
unfolding upsert_all
upsert_all-AllGiven logs [] items each all = all
upsert_all-AllGiven logs (k ∷ ks) items each all =
    upsert_all-AllGiven logs ks (upsert k items) (λ n. each (suc n))
      (upsert-AllGiven logs k items (each 0 k refl) all)

upsert_all_adds :
    (i : Item) (n : ℕ) (logs : List Item) (items : Dict Item)
    → get_elem? logs n ≡ some i
    → IsKnown i (upsert_all logs items)
unfolding upsert_all
upsert_all_adds i n [] items h = absurd (ground arith)
upsert_all_adds i zero (k ∷ ks) items h =
    let same : k ≡ i = ground arith in
    rw same (upsert_all_keeps i ks (upsert i items) (upsert_self i items))
upsert_all_adds i (suc n) (k ∷ ks) items h = upsert_all_adds i n ks (upsert k items) h

-- What the node promises of one log: a range up to a block that it says to have, and that is no later than `safe`,
-- is answered with every log in it.
abbrev pub Answers : (safe : ℕ) → Item → ((from to : ℕ) → List Item) → (ℕ → Bool) → Type 0
Answers safe i logs has_block =
    (from to : ℕ)
    → has_block to ≡ true
    → to ≤ safe
    → from ≤ i.block
    → i.block ≤ to
    → (n : ℕ) × (get_elem? (logs from to) n ≡ some i)

-- A log that the cursor has passed is known.
abbrev pub IsCovered : Item → Scan → Type 0
IsCovered i s = (s.next ≤ i.block) ⊎ IsKnown i s.items

kept_covers :
    (i : Item) (logs : List Item) (s : Scan)
    → IsCovered i s
    → IsCovered i (record { next = s.next; items = upsert_all logs s.items })
kept_covers i logs s (inl ahead) = inl ahead
kept_covers i logs s (inr known) = inr (upsert_all_keeps i logs s.items known)

ℕ_le_or_lt : (a b : ℕ) → (a ≤ b) ⊎ (b < a)
ℕ_le_or_lt a b = ground arith

chunk_covers :
    (i : Item) (logs : (from to : ℕ) → List Item) (has_block : ℕ → Bool) (safe to : ℕ) (s : Scan)
    → Answers safe i logs has_block
    → has_block to ≡ true
    → to ≤ safe
    → IsCovered i s
    → IsCovered i (record { next = to + 1; items = upsert_all (logs s.next to) s.items })
chunk_covers i logs has_block safe to s answers there low (inr known) =
    inr (upsert_all_keeps i (logs s.next to) s.items known)
chunk_covers i logs has_block safe to s answers there low (inl ahead) =
    elim (ℕ_le_or_lt i.block to) [
      | inl within ↦
          let (n, at) = answers s.next to there low ahead within in
          inr (upsert_all_adds i n (logs s.next to) s.items at)
      | inr past ↦ inl (omega (arith, past))
    ]

-- What a scan keeps: a log is covered, and whatever is recorded was given.
abbrev Holds : ((from to : ℕ) → List Item) → Item → Scan → Type 0
Holds logs i s = IsCovered i s × AllGiven logs s.items

chunk-AllGiven :
    (logs : (from to : ℕ) → List Item) (from to : ℕ) (items : Dict Item)
    → AllGiven logs items
    → AllGiven logs (upsert_all (logs from to) items)
chunk-AllGiven logs from to items all =
    upsert_all-AllGiven logs (logs from to) items (λ n k at. (from, to, n, at)) all

chunks_cover :
    (left : ℕ) (i : Item) (logs : (from to : ℕ) → List Item) (has_block : ℕ → Bool) (chunk safe : ℕ)
    (s : Scan)
    → Answers safe i logs has_block
    → Holds logs i s
    → Holds logs i (sync_chunks left logs has_block chunk safe s)
unfolding sync_chunks
chunks_cover zero i logs has_block chunk safe s answers h = h
chunks_cover (suc left) i logs has_block chunk safe s answers (covered, all) =
    let to = min safe (s.next + chunk - 1) in
    let items = upsert_all (logs s.next to) s.items in
    let given = chunk-AllGiven logs s.next to s.items all in
    let low : to ≤ safe = omega arith in
    if_lem (Holds logs i) (ltb safe s.next) (λ over. (covered, all))
      (λ more.
        if_lem (Holds logs i) (has_block to)
          (λ there.
            chunks_cover left i logs has_block chunk safe (record { next = to + 1; items = items })
              answers (chunk_covers i logs has_block safe to s answers there low covered, given))
          (λ behind. (kept_covers i (logs s.next to) s covered, given)))

-- However the node orders and chunks its answers, and whether or not it has the blocks yet, a log that the cursor has
-- passed is recorded by a sighting that is not later, first by block and then by log index; and whatever is
-- recorded for an id is a sighting of that id which the node gave. The node must answer completely only for a
-- range up to a block that it says to have, below the head by at least the confirmations.
pub sync_covers :
    (most : ℕ) (i : Item) (logs : (from to : ℕ) → List Item) (has_block : ℕ → Bool)
    (config : Config) (head : ℕ) (s : Scan)
    → Answers (head - config.confirmations) i logs has_block
    → IsCovered i s
    → AllGiven logs s.items
    → let after = sync most logs has_block config head s in
      IsCovered i after × AllGiven logs after.items
unfolding sync
sync_covers most i logs has_block config head s answers h all =
    if_lem (Holds logs i) (ltb head config.confirmations) (λ young. (h, all))
      (λ ready.
        chunks_cover most i logs has_block config.chunk (head - config.confirmations) s answers
          (h, all))

-- The cursor of a scan never goes back and never passes the confirmed head.
sync_cursor_chunks :
    (left : ℕ) (logs : (from to : ℕ) → List Item) (has_block : ℕ → Bool) (chunk safe : ℕ) (s : Scan)
    → 0 < chunk
    → let final = sync_chunks left logs has_block chunk safe s in
      (s.next ≤ final.next) × ((final.next ≡ s.next) ⊎ (final.next ≤ safe + 1))
unfolding sync_chunks
sync_cursor_chunks zero logs has_block chunk safe s pos = (omega arith, inl refl)
sync_cursor_chunks (suc left) logs has_block chunk safe s pos =
    let to = min safe (s.next + chunk - 1) in
    let items = upsert_all (logs s.next to) s.items in
    let next : Scan = record { next = to + 1; items = items } in
    let (forth, upto) = sync_cursor_chunks left logs has_block chunk safe next pos in
    elim (Bool-cases (ltb safe s.next)) [
      | inl over ↦ rw over (omega arith, inl refl)
      | inr more ↦
          let below = not_ltb→le _ _ more in
          elim (Bool-cases (has_block to)) [
            | inl there ↦ rw (more, there) (omega (arith, forth), inr (omega (arith, upto)))
            | inr behind ↦ rw (more, behind) (omega arith, inl refl)
          ]
    ]

abbrev pub addresses : List Source → List ℕ
addresses [] = []
addresses (s ∷ ss) = s.address ∷ addresses ss

abbrev pub IsDistinct : List ℕ → Type 0
IsDistinct [] = Unit
IsDistinct (x ∷ xs) = (includes xs x ≡ false) × IsDistinct xs

unseen-addresses :
    (seen : List ℕ) (ss : List Source) (a : ℕ)
    → includes seen a ≡ true
    → includes (addresses (unseen seen ss)) a ≡ false
unfolding unseen
unseen-addresses seen [] a h = refl
unseen-addresses seen (s ∷ ss) a h =
    let skipped = unseen-addresses seen ss a h in
    let kept = unseen-addresses (s.address ∷ seen) ss a (ground arith) in ground arith

unseen-IsDistinct : (seen : List ℕ) (ss : List Source) → IsDistinct (addresses (unseen seen ss))
unfolding unseen
unseen-IsDistinct seen [] = tt
unseen-IsDistinct seen (s ∷ ss) = elim (Bool-cases (includes seen s.address)) [
  | inl known ↦ rw known (unseen-IsDistinct seen ss)
  | inr new ↦ rw new (
    unseen-addresses (s.address ∷ seen) ss s.address (ground arith),
    unseen-IsDistinct (s.address ∷ seen) ss,
  )
]

unseen_complete :
    (seen : List ℕ) (ss : List Source) (a : ℕ)
    → includes (addresses ss) a ≡ true
    → (includes seen a ≡ true) ⊎ (includes (addresses (unseen seen ss)) a ≡ true)
unfolding unseen
unseen_complete seen [] a h = absurd (ground arith)
unseen_complete seen (s ∷ ss) a h =
    let skipped = unseen_complete seen ss a in
    let kept = unseen_complete (s.address ∷ seen) ss a in
    elim (includes_or s.address a (addresses ss) h) [
      | inl same ↦ ground arith
      | inr later ↦ let one = skipped later in let two = kept later in ground arith
    ]

-- The merged sources have distinct addresses, and every configured or discovered address is
-- among them.
pub merge_sources-IsDistinct :
    (configured discovered : List Source) (a : ℕ)
    → includes (addresses (configured ++ discovered)) a ≡ true
    → IsDistinct (addresses (merge_sources configured discovered))
      × (includes (addresses (merge_sources configured discovered)) a ≡ true)
unfolding merge_sources
merge_sources-IsDistinct configured discovered a h =
    let whole = unseen_complete [] (configured ++ discovered) a h in
    (unseen-IsDistinct [] (configured ++ discovered), ground arith)
