-- ===== src/Desk/Ledger.antt =====
-- What the Desk keeper reads, sends and stores (keepers/v3/desk/keeper.mjs: the journal records deskStream,
-- deskQueue, deskScan and deskEntry; send). The chain with the transaction sender is outside this part: a
-- `Chain` over a type of worlds says what a world answers, and a call gives the next world and whether it
-- was confirmed. Stream keys are numbers in one spelling, an operation's constructor and arguments are the
-- text of its task key, and the hash of a queue's content is that content. What the node answers between two
-- calls is either all there or fails as a whole (`readable`).
use solonpad_contracts.Base.{Bool, List, Option, false, if◌then◌else◌, none, or_else, ℕ, ◌∷◌}
use solonpad_contracts.Base.Dict.{Dict, insert, lookup}
use solonpad_contracts.Desk.Pass.{PassRecord}
use solonpad_contracts.Desk.Streams.{Kind}

-- The content that a queue's hash is taken of.
pub record Content : Type 0 where
  pub keys : List ℕ
  pub asset : ℕ
  pub revisions : List ℕ

pub data Op : Type 0 where
  entry_source seal_entry : (key : ℕ) → Op
  sync_purchased : (key delivered entry : ℕ) → Op
  fund_protocol forward_protocol : (key credit : ℕ) → Op
  open_queue : Content → Op
  batch : (queue next_scan_at start cards gas_limit : ℕ) → Op

pub data Alert : Type 0 where
  keeps_failing : Op → Alert
  not_bought : (entry reason : ℕ) → Alert
  waits_price no_progress pushes_reverting : (queue : ℕ) → Alert
  discovery_failing : Alert

-- `streams`, `streamSealed` and `entrySources`.
pub record StreamView : Type 0 where
  pub kind : Kind
  pub counter : ℕ
  pub total_credit27 : ℕ
  pub is_sealed : Bool
  pub has_source : Bool

-- `delivered`, `available`, `pending` and `purchasedRaw`.
pub record EntryView : Type 0 where
  pub delivered : ℕ
  pub available : ℕ
  pub pending : ℕ
  pub purchased : ℕ

-- `deskQueues` and `deskQueueStreams`.
pub record QueueView : Type 0 where
  pub content : Content
  pub upper_bound : ℕ
  pub cursor : ℕ
  pub next_scan_at : ℕ

-- What the logs of a batch's receipt count: `DeskPushed` and `DeskPushBlocked`.
pub record Receipt : Type 0 where
  pub paid : ℕ
  pub failed : ℕ

pub record Chain (W : Type 0) : Type 0 where
  pub readable : W → (key : ℕ) → Bool
  pub stream : W → (key : ℕ) → StreamView
  pub entry_view : W → (key entry : ℕ) → EntryView
  pub entry_reason : W → (entry : ℕ) → ℕ
  pub next_entry_id : W → ℕ
  pub desk_key_of : W → (entry : ℕ) → Option ℕ
  pub delivery : W → (key : ℕ) → ℕ × ℕ
  pub purchased_raw : W → (key : ℕ) → ℕ
  pub delegated_credit27 : W → (key : ℕ) → ℕ
  pub delegated_funded : W → (key : ℕ) → ℕ
  pub queue : W → (index : ℕ) → Option QueueView
  pub is_queued : W → Content → Bool
  pub price : W → (asset : ℕ) → Option ℕ
  pub minimum : W → ℕ
  pub is_quarantined : W → Op → Bool
  pub call : W → Op → W × Bool
  pub receipt : W → Op → Receipt

-- A discovered stream.
pub record Item : Type 0 where
  pub id : ℕ
  pub epoch : ℕ
  pub kind : Kind

-- The journal record of a stream; a missing one is `no_stream`.
pub record StreamRec : Type 0 where
  pub is_done : Bool
  pub dust : Bool
  pub empty : Bool
  pub unbuyable : Bool
  pub protocol_done : Bool
  pub entry_id : Option ℕ
  pub sealed_seen : Option ℕ
  pub queue_id : Option ℕ

abbrev pub no_stream : StreamRec
no_stream = record {
  is_done = false;
  dust = false;
  empty = false;
  unbuyable = false;
  protocol_done = false;
  entry_id = none;
  sealed_seen = none;
  queue_id = none;
}

-- `deskEntry` with the cursor `deskScan:entries`.
pub record Book : Type 0 where
  pub next : ℕ
  pub entries : Dict ℕ

-- The journal record of a queue; `serviced` is `none` until the keeper has judged it. The patch of a pass is
-- stored over `pass`, whose `is_done` is the record's `done`.
pub record QueueRec : Type 0 where
  pub content : Content
  pub upper_bound : ℕ
  pub adopted_cursor : Option ℕ
  pub ours : Bool
  pub serviced : Option Bool
  pub adopted : Bool
  pub pass : PassRecord
  pub price_wait_since : Option ℕ

abbrev pub no_pass : PassRecord
no_pass = record {
  cursor = 0;
  pass_paid = 0;
  pass_failed = 0;
  passes = 0;
  last_paid = 0;
  last_failed = 0;
  is_done = false;
}

-- `covered` holds the streams of the queues that the keeper services; `next_queue` is `deskScan:queues`.
-- `sends` remembers every call with the world that it was made in.
pub record State (W : Type 0) : Type 0 where
  pub world : W
  pub streams : Dict StreamRec
  pub book : Book
  pub queues : Dict QueueRec
  pub next_queue : ℕ
  pub covered : List ℕ
  pub sends : List (W × Op)
  pub alerts : List Alert

module _ {W : Type 0} where
  -- `journal.record('deskStream', id)`, and `setRecord` with a patch.
  abbrev pub stream_rec : (id : ℕ) → State W → StreamRec
  stream_rec id s = or_else (lookup id s.streams) no_stream

  abbrev pub patch_stream : (id : ℕ) → (StreamRec → StreamRec) → State W → State W
  patch_stream id patch s = record s {
    streams = insert id (patch (or_else (lookup id s.streams) no_stream)) s.streams;
  }

  -- `send`: the call, with an alert once its task is quarantined.
  unfoldable pub send : Chain W → Op → State W → State W × Bool
  send chain op s =
      let (w, confirmed) = chain.call s.world op in
      let alerted = if chain.is_quarantined w op then keeps_failing op ∷ s.alerts else s.alerts in
      (record s { world = w; sends = (s.world, op) ∷ s.sends; alerts = alerted }, confirmed)
