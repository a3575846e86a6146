-- ===== src/Payout/Known/Latest.antt =====
-- The queues serviced are the latest revisions.
use solonpad_contracts.Base.{
  All, Bool, List, Option, Option-cases, [], ap, arith, false, if_lem, if◌then◌else◌, inl, inr,
  length, ltb, max, none, refl, suc, true, zero, ℕ, ◌&&◌, ◌++◌, ◌+◌, ◌<◌, ◌==◌, ◌∙◌, ◌∷◌, ◌≡◌, ◌≢◌,
  ◌≤◌, ◌⊎◌,
}
use solonpad_contracts.Payout.Known.{
  Queue, Scan, known_queues, latest, put_latest, read_forward, same_key,
}

-- One more than the largest revision among the queues of a key, 0 without any; and how many there are.
abbrev pub newest : Queue → List Queue → ℕ
newest k [] = 0
newest k (q ∷ qs) = max (if same_key q k then q.revision + 1 else 0) (newest k qs)

abbrev pub of_key : Queue → List Queue → ℕ
of_key k [] = 0
of_key k (q ∷ qs) = (if same_key q k then 1 else 0) + of_key k qs

newest-put_latest :
    (k q : Queue) (xs : List Queue)
    → newest k (put_latest q xs) ≡ max (newest k xs) (if same_key q k then q.revision + 1 else 0)
unfolding put_latest
newest-put_latest k q [] = omega arith
newest-put_latest k q (x ∷ xs) = ground (arith, newest-put_latest k q xs)

of_key-put_latest :
    (k q : Queue) (xs : List Queue)
    → of_key k (put_latest q xs)
      ≡ (if of_key q xs == 0 then of_key k xs + (if same_key q k then 1 else 0) else of_key k xs)
unfolding put_latest
of_key-put_latest k q [] = ground arith
of_key-put_latest k q (x ∷ xs) = ground (arith, of_key-put_latest k q xs)

of_key-same : (a b : Queue) (xs : List Queue) → same_key a b ≡ true → of_key a xs ≡ of_key b xs
of_key-same a b [] h = refl
of_key-same a b (x ∷ xs) h = ground (arith, of_key-same a b xs h)

newest-latest :
    (k : Queue) (kept qs : List Queue)
    → newest k (latest kept qs) ≡ max (newest k kept) (newest k qs)
unfolding latest
newest-latest k kept [] = omega arith
newest-latest k kept (q ∷ qs) =
    omega (arith, newest-latest k (put_latest q kept) qs, newest-put_latest k q kept)

one-put_latest :
    (k q : Queue) (kept : List Queue) → of_key k kept ≤ 1 → of_key k (put_latest q kept) ≤ 1
one-put_latest k q kept few = ground (arith, of_key-put_latest k q kept, of_key-same q k kept)

one-latest : (k : Queue) (kept qs : List Queue) → of_key k kept ≤ 1 → of_key k (latest kept qs) ≤ 1
unfolding latest
one-latest k kept [] few = few
one-latest k kept (q ∷ qs) few = one-latest k (put_latest q kept) qs (one-put_latest k q kept few)

-- A queue of the list.
abbrev pub IsAmong : List Queue → Queue → Type 0
IsAmong [] q = true ≡ false
IsAmong (x ∷ xs) q = (x ≡ q) ⊎ IsAmong xs q

IsAmong-All :
    (whole qs : List Queue)
    → ((q : Queue) → IsAmong qs q → IsAmong whole q)
    → All (IsAmong whole) qs
IsAmong-All whole [] within = tt
IsAmong-All whole (x ∷ xs) within =
    (within x (inl refl), IsAmong-All whole xs (λ q h. within q (inr h)))

put_latest-All :
    (P : Queue → Type 0) (q : Queue) (kept : List Queue)
    → P q
    → All P kept
    → All P (put_latest q kept)
unfolding put_latest
put_latest-All P q [] h hs = (h, tt)
put_latest-All P q (x ∷ xs) h hs =
    if_lem (All P) (same_key x q)
      (λ same.
        if_lem (λ (t : Queue). All P (t ∷ xs)) (ltb x.revision q.revision) (λ newer. (h, hs.1))
          (λ older. hs))
      (λ differ. (hs.0, put_latest-All P q xs h hs.1))

latest-All :
    (P : Queue → Type 0) (kept qs : List Queue) → All P kept → All P qs → All P (latest kept qs)
unfolding latest
latest-All P kept [] hs rest = hs
latest-All P kept (q ∷ qs) hs rest =
    latest-All P (put_latest q kept) qs (put_latest-All P q kept rest.0 hs) rest.1

-- The queues serviced are, for each source, epoch and asset, what a search for the newest revision over all
-- queues ever read finds: each is one of the queues read, as it was read; there is at most one for the key, and
-- it has the largest revision.
pub known_queues_lem :
    (queue_at : ℕ → Option Queue) (fuel : ℕ) (execute : Bool) (s : Scan) (k : Queue)
    → let out = (known_queues queue_at fuel execute s).0 in
      let all_read = s.listed ++ read_forward queue_at fuel s.next in
      All (IsAmong all_read) out × (of_key k out ≤ 1) × (newest k out ≡ newest k all_read)
unfolding known_queues
known_queues_lem queue_at fuel execute s k =
    let merged = s.listed ++ read_forward queue_at fuel s.next in
    (
      latest-All (IsAmong merged) [] merged tt (IsAmong-All merged merged (λ q h. h)),
      one-latest k [] merged (omega arith),
      newest-latest k [] merged ∙ omega arith,
    )

read_forward-end :
    (queue_at : ℕ → Option Queue) (fuel i bound : ℕ)
    → queue_at bound ≡ none
    → i ≤ bound
    → bound < i + fuel
    → queue_at (i + length (read_forward queue_at fuel i)) ≡ none
unfolding read_forward
read_forward-end queue_at zero i bound end le lt = absurd (omega arith)
read_forward-end queue_at (suc fuel) i bound end le lt = elim (Option-cases (queue_at i)) [
  | inl missing ↦ let same : i + 0 ≡ i = omega arith in rw (missing, read_forward, same) missing
  | inr (q, found) ↦
      let differ : i ≢ bound = λ e. cc (found, end, e) in
      let rest = read_forward-end queue_at fuel (suc i) bound end (omega arith) (omega arith) in
      let shift : i + suc (length (read_forward queue_at fuel (suc i)))
          ≡ suc i + length (read_forward queue_at fuel (suc i)) =
        omega arith in
      rw (found, read_forward, shift) rest
]

read_forward-none :
    (queue_at : ℕ → Option Queue) (fuel i : ℕ)
    → queue_at i ≡ none
    → read_forward queue_at fuel i ≡ []
unfolding read_forward
read_forward-none queue_at zero i end = refl
read_forward-none queue_at (suc fuel) i end = rw (end, read_forward) refl

append_nil : (xs : List Queue) → xs ++ [] ≡ xs
append_nil [] = refl
append_nil (x ∷ xs) = ap (λ ys. x ∷ ys) (append_nil xs)

abbrev extended : Scan → List Queue → Scan
extended s found = record { listed = s.listed ++ found; next = s.next + length found }

extended-nil : (s : Scan) → s ≡ extended s []
extended-nil s =
    let same : s.listed ++ [] ≡ s.listed = append_nil s.listed in
    let stays : s.next + 0 ≡ s.next = omega arith in rw (same, stays) refl

stored_lem :
    (s : Scan) (found : List Queue)
    → (if true && ltb 0 (length found) then extended s found else s) ≡ extended s found
stored_lem s [] = extended-nil s
stored_lem s (q ∷ qs) =
    let some_found : ltb 0 (suc (length qs)) ≡ true = ground arith in rw some_found refl

known_queues_end :
    (queue_at : ℕ → Option Queue) (fuel : ℕ) (s : Scan)
    → queue_at s.next ≡ none
    → known_queues queue_at fuel true s ≡ (latest [] s.listed, s)
unfolding known_queues
known_queues_end queue_at fuel s end =
    let nothing = read_forward-none queue_at fuel s.next end in
    let same = append_nil s.listed in rw (nothing, same) refl

-- A live keeper that has read the queues finds the same ones when it reads again, from its journal alone: with
-- fuel that reaches past the last queue, nothing is read twice and nothing is lost.
pub known_queues_again :
    (queue_at : ℕ → Option Queue) (fuel bound : ℕ) (s : Scan)
    → queue_at bound ≡ none
    → s.next ≤ bound
    → bound < s.next + fuel
    → let (queues, after) = known_queues queue_at fuel true s in
      known_queues queue_at fuel true after ≡ (queues, after)
unfolding known_queues
known_queues_again queue_at fuel bound s end le lt =
    let found = read_forward queue_at fuel s.next in
    let stored = stored_lem s found in
    let again =
      known_queues_end queue_at fuel (extended s found)
        (read_forward-end queue_at fuel s.next bound end le lt) in
    rw stored again
