-- ===== src/Desk/Entries/Scanned.antt =====
-- The book of entries is what a search over all entries read so far would find.
use solonpad_contracts.Base.{
  Bool, Option, Option-cases, arith, false, if◌then◌else◌, inl, inr, max, none, refl, some, subst,
  suc, sym, zero, ℕ, ℕ_discrete, ◌+◌, ◌-◌, ◌<◌, ◌==◌, ◌≡◌, ◌≢◌, ◌⊎◌,
}
use solonpad_contracts.Base.Dict.{Dict, lookup, lookup-insert_ne, lookup-insert_self}
use solonpad_contracts.Desk.Ledger.{Book}
use solonpad_contracts.Desk.Entries.{entry_id_of, note_entry, read_forward, scan_entries}

module _ (key_of : ℕ → Option ℕ) where
  abbrev names : Option ℕ → (key : ℕ) → Bool
  names none key = false
  names (some k) key = k == key

  -- The last of the entries 1 to `n` that belongs to `key`.
  abbrev pub last_entry : (n key : ℕ) → Option ℕ
  last_entry zero key = none
  last_entry (suc n) key = if names (key_of (suc n)) key then some (suc n) else last_entry n key

  -- The book holds of every key the last entry below its cursor.
  unfoldable pub IsCurrent : Book → Type 0
  IsCurrent book =
      (0 < book.next) × ((key : ℕ) → lookup key book.entries ≡ last_entry (book.next - 1) key)

  lookup-note_entry :
      (id key : ℕ) (o : Option ℕ) (entries : Dict ℕ)
      → lookup key (note_entry id o entries) ≡ (if names o key then some id else lookup key entries)
  lookup-note_entry id key none entries = refl
  lookup-note_entry id key (some k) entries = elim (ℕ_discrete k key) [
    | yes e ↦ ground (arith, lookup-insert_self key id entries)
    | no d ↦ ground (arith, lookup-insert_ne key k id entries)
  ]

  scan_entries-lookup :
      (n id key : ℕ) (entries : Dict ℕ)
      → lookup key entries ≡ last_entry id key
      → lookup key (scan_entries key_of n (suc id) entries) ≡ last_entry (id + n) key
  unfolding scan_entries
  scan_entries-lookup zero id key entries h = ground arith
  scan_entries-lookup (suc n) id key entries h =
      let shift : suc id + n ≡ id + suc n = omega arith in
      let step : lookup key (note_entry (suc id) (key_of (suc id)) entries)
          ≡ last_entry (suc id) key =
        ground (arith, lookup-note_entry (suc id) key (key_of (suc id)) entries) in
      rw (sym shift)
        (scan_entries-lookup n (suc id) key (note_entry (suc id) (key_of (suc id)) entries) step)

  pub read_forward-IsCurrent :
      (last : ℕ) (book : Book) → IsCurrent book → IsCurrent (read_forward key_of last book)
  unfolding read_forward IsCurrent
  read_forward-IsCurrent last book h =
      let start : suc (book.next - 1) ≡ book.next = omega (arith, h.0) in
      let stop : book.next - 1 + (last + 1 - book.next) ≡ max book.next (last + 1) - 1 =
        omega (arith, h.0) in
      (
        omega (arith, h.0),
        λ key. rw (sym stop) (
            subst
              (λ i.
                lookup key (scan_entries key_of (last + 1 - book.next) i book.entries)
                ≡ last_entry (book.next - 1 + (last + 1 - book.next)) key)
              start
              (scan_entries-lookup (last + 1 - book.next) (book.next - 1) key book.entries
                (h.1 key))),
      )

  -- With a book that is current, `entryIdOf` gives what a search over every entry read so far, the
  -- newest first, would give; it leaves the book current, and it answers "none" only after it has
  -- read every entry up to `last`.
  pub entry_id_of_lem :
      (last key : ℕ) (book : Book)
      → IsCurrent book
      → let out = entry_id_of key_of last key book in
        IsCurrent out.1
        × (out.0 ≡ last_entry (out.1.next - 1) key)
        × ((out.0 ≢ none) ⊎ (last < out.1.next))
  unfolding entry_id_of read_forward IsCurrent
  entry_id_of_lem last key book h =
      let after = read_forward key_of last book in
      let current : IsCurrent after = read_forward-IsCurrent last book h in
      elim (Option-cases (lookup key book.entries)) [
        | inl missing ↦ rw (missing, entry_id_of) (current, current.1 key, ground arith)
        | inr (id, found) ↦ rw (found, entry_id_of) (h, ground (arith, h.1 key), ground arith)
      ]
