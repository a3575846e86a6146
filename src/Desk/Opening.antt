-- ===== src/Desk/Opening.antt =====
-- Opening payout queues for the ready streams (keepers/v3/desk/keeper.mjs: openPhase; keepers/v3/desk/decide.mjs:
-- planGroups over the assets). JavaScript's sort is a function from outside.
pub mod Grouped
pub mod Sent
use solonpad_contracts.Base.{
  Bool, List, Option, [], false, filter, if◌then◌else◌, includes, map, none, or_else, some, suc,
  true, zero, ℕ, ◌&&◌, ◌++◌, ◌-◌, ◌==◌, ◌∷◌,
}
use solonpad_contracts.Base.Dict.{Dict, insert, lookup}
use solonpad_contracts.Desk.Groups.{ReadyStream, plan_asset}
use solonpad_contracts.Desk.Ledger.{Chain, Content, QueueRec, State, open_queue, patch_stream, send}
use solonpad_contracts.Desk.Walk.{Params, Ready}
use solonpad_contracts.Desk.Queues.{scan_queues}

-- A group to open: its asset and its streams.
pub record Group : Type 0 where
  pub asset : ℕ
  pub streams : List ReadyStream

pub record GroupPlan : Type 0 where
  pub opened : List Group
  pub hold : List ReadyStream
  pub dust : List ReadyStream

abbrev pub ready_stream : Ready → ReadyStream
ready_stream r = record { key = r.key; per_card = r.per_card }

-- The keys of `byAsset`, in the order of their first streams.
pub assets_of : (seen : List ℕ) → List Ready → List ℕ
assets_of seen [] = []
assets_of seen (r ∷ rs) =
    let skipped = assets_of seen rs in
    let kept = assets_of (r.asset ∷ seen) rs in
    if includes seen r.asset then skipped else r.asset ∷ kept

-- `planGroups` over the assets `assets`.
pub plan_assets :
    (sort : List Ready → List Ready) (price : ℕ → ℕ) (minimum most margin : ℕ) (assets : List ℕ)
    → List Ready
    → GroupPlan
plan_assets sort price minimum most margin [] ready = record { opened = []; hold = []; dust = [] }
plan_assets sort price minimum most margin (a ∷ others) ready =
    let sorted = map ready_stream (sort (filter (λ r. r.asset == a) ready)) in
    let one = plan_asset sorted (price a) minimum most margin in
    let rest = plan_assets sort price minimum most margin others ready in
    record {
      opened = map (λ g. record { asset = a; streams = g }) one.opened ++ rest.opened;
      hold = one.hold ++ rest.hold;
      dust = one.dust ++ rest.dust;
    }

-- `planGroups`
pub plan_groups :
    (sort : List Ready → List Ready) (price : ℕ → ℕ) (minimum most margin : ℕ)
    → List Ready
    → GroupPlan
plan_groups sort price minimum most margin ready =
    plan_assets sort price minimum most margin (assets_of [] ready) ready

abbrev pub same_list : List ℕ → List ℕ → Bool
same_list [] [] = true
same_list (x ∷ xs) (y ∷ ys) = let rest = same_list xs ys in if x == y then rest else false
same_list _ _ = false

-- `queueUnique(a) === queueUnique(b)`
abbrev pub same_content : Content → Content → Bool
same_content a b =
    same_list a.keys b.keys && a.asset == b.asset && same_list a.revisions b.revisions

-- The first queue in the journal with that content.
pub find_content : Content → Dict QueueRec → Option ℕ
find_content c [] = none
find_content c ((id, rec) ∷ queues) =
    let rest = find_content c queues in if same_content rec.content c then some id else rest

-- `byKey.get(k).revision`
pub revision_of : List Ready → (key : ℕ) → ℕ
revision_of [] key = 0
revision_of (r ∷ rs) key =
    let rest = revision_of rs key in if r.key == key then r.revision else rest

abbrev pub content_of : List Ready → Group → Content
content_of ready g =
    let keys = map (λ r. r.key) g.streams in
    record { keys = keys; asset = g.asset; revisions = map (revision_of ready) keys }

-- A queue that the keeper finds already open is adopted, one it opened is its own.
abbrev pub adopted_rec : QueueRec → QueueRec
adopted_rec rec = record rec { serviced = some true; adopted = true }

abbrev pub own_rec : QueueRec → QueueRec
own_rec rec = record rec {
  ours = true;
  serviced = some true;
  adopted = false;
  pass = record rec.pass { is_done = false };
}

module _ {W : Type 0} where
  -- The loop that covers a queue's streams and notes its id.
  pub cover : (queue : ℕ) (keys : List ℕ) → State W → State W
  cover queue [] s = s
  cover queue (k ∷ ks) s = cover queue ks (
      patch_stream k (λ r. record r { queue_id = some queue })
        (record s { covered = k ∷ s.covered }))

  abbrev pub patch_queue : (id : ℕ) → (QueueRec → QueueRec) → State W → State W
  patch_queue id patch s = elim (lookup id s.queues) [
    | none ↦ s
    | some rec ↦ record s { queues = insert id (patch rec) s.queues }
  ]

  -- The loop over the `n` queues scanned from `i` on, behind a confirmed call.
  pub claim_queues : Content → (n i : ℕ) → State W → State W
  claim_queues c zero i s = s
  claim_queues c (suc n) i s = elim (lookup i s.queues) [
    | none ↦ claim_queues c n (suc i) s
    | some rec ↦
        if same_content rec.content c
        then claim_queues c n (suc i) (cover i rec.content.keys (patch_queue i own_rec s))
        else claim_queues c n (suc i) s
  ]

  -- The loop over the dust.
  pub give_up_dust : List ReadyStream → State W → State W
  give_up_dust [] s = s
  give_up_dust (d ∷ ds) s =
      give_up_dust ds (patch_stream d.key (λ r. record r { is_done = true; dust = true }) s)

module _ {W : Type 0} (chain : Chain W) (fuel : ℕ) (known : List ℕ) where
  -- A group whose queue exists on chain.
  pub adopt_group : Content → State W → State W
  adopt_group c s = elim (find_content c s.queues) [
    | none ↦ s
    | some id ↦ cover id c.keys (patch_queue id adopted_rec s)
  ]

  -- A group whose queue does not.
  pub open_new : Content → State W → State W
  open_new c s =
      let (after, confirmed) = send chain (open_queue c) s in
      let scanned = scan_queues chain fuel known after in
      let claimed =
        claim_queues c (scanned.next_queue - after.next_queue) after.next_queue scanned in
      if confirmed then claimed else after

  pub open_group : Content → State W → State W
  open_group c s =
      let adopted = adopt_group c s in
      let opened = open_new c s in if chain.is_queued s.world c then adopted else opened

  -- The loop over the groups to open.
  pub open_groups : List Ready → List Group → State W → State W
  open_groups ready [] s = s
  open_groups ready (g ∷ gs) s = open_groups ready gs (open_group (content_of ready g) s)

  -- `openPhase`; a price that cannot be read is 0.
  pub open_phase : (sort : List Ready → List Ready) → Params → List Ready → State W → State W
  open_phase sort p ready s =
      let plan =
        plan_groups sort (λ a. or_else (chain.price s.world a) 0) (chain.minimum s.world)
          p.max_keys_per_queue p.margin_bps ready in
      open_groups ready plan.opened (give_up_dust plan.dust s)
