-- ===== src/Base/Dict.antt =====
-- A JavaScript object used as a dictionary, in insertion order, over numbered keys.
use solonpad_contracts.Base.Tests.{if◌then◌else◌, ◌==◌}
use Prim.Native.Nat.{ℕ}
use mathlib.Core.Path.{◌≡◌, refl}
use mathlib.Core.Logic.{◌≢◌}
use mathlib.Core.Option.{Option, none, some}
use mathlib.Core.List.{List, [], ◌∷◌}
use native.Mathlib.Omega.{arith}

abbrev pub Dict {ℓ} : Type ℓ → Type ℓ
Dict Value = List (ℕ × Value)

module _ {ℓ} {Value : Type ℓ} where
  -- `object[key]`
  abbrev pub lookup : (key : ℕ) → Dict Value → Option Value
  lookup key [] = none
  lookup key ((name, value) ∷ others) = if name == key then some value else lookup key others

  -- `delete object[key]`: every entry of the key goes.
  abbrev pub erase : (key : ℕ) → Dict Value → Dict Value
  erase key [] = []
  erase key ((name, value) ∷ others) =
      let left = erase key others in if name == key then left else (name, value) ∷ left

  pub lookup-erase_self : (key : ℕ) (object : Dict Value) → lookup key (erase key object) ≡ none
  lookup-erase_self key [] = refl
  lookup-erase_self key (entry ∷ others) = ground (arith, lookup-erase_self key others)

  -- `object[key] = value`: in the place of the key's entry, or at the end.
  abbrev pub insert : (key : ℕ) → Value → Dict Value → Dict Value
  insert key new [] = (key, new) ∷ []
  insert key new ((name, value) ∷ others) =
      if name == key then (key, new) ∷ others else (name, value) ∷ insert key new others

  -- What another key holds is not touched.
  pub lookup-insert_ne :
      (other key : ℕ) (new : Value) (object : Dict Value)
      → other ≢ key
      → lookup other (insert key new object) ≡ lookup other object
  lookup-insert_ne other key new [] differ = ground arith
  lookup-insert_ne other key new (entry ∷ others) differ =
      ground (arith, lookup-insert_ne other key new others differ)

  pub lookup-insert_self :
      (key : ℕ) (new : Value) (object : Dict Value) → lookup key (insert key new object) ≡ some new
  lookup-insert_self key new [] = ground arith
  lookup-insert_self key new (entry ∷ others) = ground (arith, lookup-insert_self key new others)
