-- ===== src/Desk/Entries.antt =====
-- Finding the reward entry of a Desk stream (keepers/v3/desk/keeper.mjs: entryIdOf, deskKeyOf). The manager's
-- entries are numbered from 1; what `deskKeyOf` says of one is a function.
pub mod Scanned
use solonpad_contracts.Base.{Option, max, none, some, suc, zero, ℕ, ◌+◌, ◌-◌}
use solonpad_contracts.Base.Dict.{Dict, insert, lookup}
use solonpad_contracts.Desk.Ledger.{Book}

-- `if (k) setRecord('deskEntry', k, { entryId: id })`
abbrev pub note_entry : (id : ℕ) → Option ℕ → Dict ℕ → Dict ℕ
note_entry id none entries = entries
note_entry id (some key) entries = insert key id entries

module _ (key_of : ℕ → Option ℕ) where
  -- The loop over the `n` ids from `id` on.
  pub scan_entries : (n id : ℕ) → Dict ℕ → Dict ℕ
  scan_entries zero id entries = entries
  scan_entries (suc n) id entries = scan_entries n (suc id) (note_entry id (key_of id) entries)

  -- The part of `entryIdOf` behind the first lookup: the book read forward to `last`.
  pub read_forward : (last : ℕ) → Book → Book
  unfolding scan_entries
  read_forward last book = record {
    next = max book.next (last + 1);
    entries = scan_entries (last + 1 - book.next) book.next book.entries;
  }

  -- `entryIdOf`
  unfoldable pub entry_id_of : (last key : ℕ) → Book → Option ℕ × Book
  unfolding read_forward
  entry_id_of last key book = elim (lookup key book.entries) [
    | some id ↦ (some id, book)
    | none ↦ let after = read_forward last book in (lookup key after.entries, after)
  ]
