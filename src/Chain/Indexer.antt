-- ===== src/Chain/Indexer.antt =====
-- One tick of the indexer: `tick`, `collectLogs`, `nextFromBlock`, `saveCursor`, `loop` and `schedule`
-- of src/chain/indexer.service.ts, over any processor of batches.
pub mod Cursor
pub mod Delivered
pub mod Complete
use numera_backend.Prelude.{
  ℕ, suc, ◌+◌, ◌-◌, ◌*◌, ◌==◌, Bool, true, false, ◌||◌, Option, none, some, List, [], ◌∷◌, ◌++◌,
  Text, ltb, leb, if◌then◌else◌,
}
use numera_backend.Events.Data.{NormalizedLog, Payload}
use numera_backend.Events.State.{Run, done, threw}
use numera_backend.Chain.Order.{Place, sort}
use numera_backend.Chain.Plan.{Range, plan, last_block}

pub record Config : Type 0 where
  pub start_block : ℕ
  pub batch_blocks : ℕ
  pub confirmations : ℕ
  pub poll_interval_ms : ℕ
  -- The addresses of the configured streams.
  pub streams : List Text

-- A log as the node returns it, decoded by the stream's events.
pub record RawLog : Type 0 where
  pub payload : Payload
  pub block_number : ℕ
  pub tx_hash : Text
  pub log_index : ℕ

-- What the node answers during a tick; none where the request fails.
pub record Node : Type 0 where
  pub head : Option ℕ
  pub get_logs : Text → Range → Option (List RawLog)
  pub block_time : ℕ → Option ℕ

abbrev pub both : {A : Type 0} → Option (List A) → Option (List A) → Option (List A)
both none ys = none
both (some xs) none = none
both (some xs) (some ys) = some (xs ++ ys)

unfoldable pub place : NormalizedLog → Place
place l = (l.block_number, l.log_index)

unfoldable pub normalize : Text → RawLog → ℕ → NormalizedLog
normalize address l time = record {
  address = address;
  payload = l.payload;
  block_number = l.block_number;
  tx_hash = l.tx_hash;
  log_index = l.log_index;
  timestamp = time * 1000;
}

-- The logs with the times of their blocks.
unfoldable pub attach_times : (ℕ → Option ℕ) → Text → List RawLog → Option (List NormalizedLog)
unfolding normalize
attach_times block_time address [] = some []
attach_times block_time address (l ∷ ls) =
    both
      (elim (block_time l.block_number) [
        | none ↦ none
        | some time ↦ some (normalize address l time ∷ [])
      ])
      (attach_times block_time address ls)

unfoldable pub stream_logs : Node → Range → List Text → Option (List NormalizedLog)
unfolding attach_times
stream_logs node r [] = some []
stream_logs node r (address ∷ streams) =
    both
      (elim (node.get_logs address r) [
        | none ↦ none
        | some logs ↦ attach_times node.block_time address logs
      ])
      (stream_logs node r streams)

unfoldable pub collect_logs : Node → List Text → Range → Option (List NormalizedLog)
unfolding stream_logs
collect_logs node streams r = elim (stream_logs node r streams) [
  | none ↦ none
  | some logs ↦ some (sort place logs)
]

-- `Promise.all` over the ranges, flattened.
unfoldable pub collect_ranges : Node → List Text → List Range → Option (List NormalizedLog)
unfolding collect_logs
collect_ranges node streams [] = some []
collect_ranges node streams (r ∷ rs) =
    both (collect_logs node streams r) (collect_ranges node streams rs)

unfoldable pub safe_head_of : ℕ → ℕ → ℕ
safe_head_of confirmations head = if ltb confirmations head then head - confirmations else 0

abbrev length_of : List Text → ℕ
length_of [] = 0
length_of (x ∷ xs) = suc (length_of xs)

unfoldable pub next_from_block : Config → Option ℕ → ℕ
next_from_block cfg none = cfg.start_block
next_from_block cfg (some last) = last + 1

-- The persisted cursor and what the processor writes to.
pub record Indexer (S : Type 0) : Type 0 where
  pub cursor : Option ℕ
  pub store : S

-- How a tick ends: nothing final to read, a committed batch with its ranges and whether the safe
-- head was reached, or a throw.
pub data Tick (S : Type 0) : Type 0 where
  idle : Indexer S → Tick S
  committed : List Range → Bool → Indexer S → Tick S
  failed : Indexer S → Tick S

abbrev pub after_tick : {S : Type 0} → Tick S → Indexer S
after_tick (idle x) = x
after_tick (committed ranges caught_up x) = x
after_tick (failed x) = x

-- The wait before the next round of `loop`.
unfoldable pub next_delay : {S : Type 0} → Config → Tick S → ℕ
next_delay cfg (idle x) = cfg.poll_interval_ms
next_delay cfg (committed ranges caught_up x) = if caught_up then cfg.poll_interval_ms else 0
next_delay cfg (failed x) = cfg.poll_interval_ms

-- The flags of the service; `timer` is the delay that was scheduled last.
pub record Loop (S : Type 0) : Type 0 where
  pub running : Bool
  pub stopped : Bool
  pub timer : Option ℕ
  pub indexer : Indexer S

module _ {S : Type 0} (process_batch : List NormalizedLog → S → Run S) where
  -- `if (logs.length > 0) await processBatch(logs)`.
  unfoldable pub process : List NormalizedLog → S → Run S
  process [] s = done s
  process (l ∷ ls) s = process_batch (l ∷ ls) s

  -- `saveCursor` comes after the batch has gone through.
  unfoldable pub commit : List Range → ℕ → Indexer S → Run S → Tick S
  commit ranges safe_head x (threw s) = failed (record x { store = s })
  commit ranges safe_head x (done s) =
      let to = last_block ranges in
      committed ranges (leb safe_head to) (record { cursor = some to; store = s })

  unfoldable pub tick_to : Config → Node → ℕ → Indexer S → Tick S
  unfolding commit
  tick_to cfg node safe_head x =
      let from = next_from_block cfg x.cursor in
      let ranges = plan cfg.batch_blocks (length_of cfg.streams) safe_head from in
      if ltb safe_head from then idle x else elim (collect_ranges node cfg.streams ranges) [
        | none ↦ failed x
        | some logs ↦ commit ranges safe_head x (process (sort place logs) x.store)
      ]

  -- With the answer of `getBlockNumber`.
  unfoldable pub tick_at : Config → Node → Option ℕ → Indexer S → Tick S
  unfolding tick_to
  tick_at cfg node none x = failed x
  tick_at cfg node (some head) x = tick_to cfg node (safe_head_of cfg.confirmations head) x

  unfoldable pub tick : Config → Node → Indexer S → Tick S
  unfolding tick_at
  tick cfg node x = tick_at cfg node node.head x

  unfoldable pub loop : Config → Node → Loop S → Loop S
  unfolding next_delay
  loop cfg node l =
      if l.running || l.stopped
      then l
      else (let t = tick cfg node l.indexer in
          record {
            running = false;
            stopped = l.stopped;
            timer = some (next_delay cfg t);
            indexer = after_tick t;
          })
