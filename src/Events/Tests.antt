-- ===== src/Events/Tests.antt =====
-- A small database, and the trade handlers on it.
use numera_backend.Prelude.{
  ℕ, ◌+◌, ◌-◌, ◌*◌, ◌^◌, ◌≤◌, ◌<◌, ◌≡◌, refl, false, lt→ltb, Option, none, some, List, [], ◌∷◌,
  Text, codes, Eq, pair_eq, text_key, nat_eq, arith, to_lower, if◌then◌else◌, ltb, not, ◌&&◌, ◌==◌,
}
use numera_backend.Prelude.Int.{pos, ◌+ℤ◌}
use numera_backend.Store.Functions.{function_store}
use numera_backend.Events.Data.{
  MarketKey, PositionKey, TradeArgs, buy, sell, trading, ls_lmsr, other_engine_event, NormalizedLog,
}
use numera_backend.Events.Rows.{Market, Outcome, Position}
use numera_backend.Events.State.{Database, State, done, threw, after, market_key_eq}
use numera_backend.Events.Trades.{
  on_trade, sell_position, sold_shares, cost_removed, signed, position_after,
}
use numera_backend.Events.Data.{ProposedArgs, proposal_made}
use numera_backend.Events.Batch.{Externals, apply_resolver}
use numera_backend.Events.Resolution.Replay.{proposal_at, proposals-apply_resolver}
use numera_backend.Events.Data.{BannedArgs, banned}
use numera_backend.Events.Batch.{apply_blocklist}
use numera_backend.Events.Bans.Status.{is_barred, is_barred-apply_blocklist}
use numera_backend.Events.Lifecycle.{on_redeem}
use numera_backend.Events.Lifecycle.Redeem.{credit-on_redeem}
use numera_backend.Prelude.{true}
use numera_backend.Prelude.Int.{◌-ℤ◌}
use numera_backend.Events.Trades.Effects.{log_key}
use numera_backend.Events.Trades.Replay.{replay-on_trade, twice}
use numera_backend.Events.Trades.Stuck.{threw-rescanned, rescanned, taken, position_key}
use numera_backend.Events.Trades.Positions.{net-run_position, run_position, cash_flow, net}
use numera_backend.Events.Shorts.{on_short, short_parts, short_legs}
use numera_backend.Events.Shorts.Legs.{sum_bases-short_parts, sum_bases}
use numera_backend.Events.Shorts.Holdings.{held-on_short, held}

abbrev outcome_key_eq : Eq (MarketKey × ℕ)
outcome_key_eq = pair_eq

abbrev position_key_eq : Eq PositionKey
position_key_eq = pair_eq

abbrev price_key_eq : Eq (MarketKey × (ℕ × ℕ))
price_key_eq = pair_eq

abbrev database : Database
database = record {
  markets = function_store;
  outcomes = function_store;
  trades = function_store;
  positions = function_store;
  proposals = function_store;
  banned = function_store;
  categories = function_store;
  drafts = function_store;
  price_points = function_store;
  is_plain = λ n. ltb n (10 ^ 21);
}

abbrev market : Market
market = record {
  collateral = [];
  resolver = [];
  start_time = 0;
  close_time = 100;
  outcome_count = 3;
  category_key = none;
  metadata_hash = [];
  creator = [];
  alpha = 1;
  s_star = 1;
  seed = 10;
  status = trading;
  winning_outcome_id = none;
  pot = pos 10;
  surplus = none;
  title = [];
  description = [];
  resolution_rules = [];
  image_url = none;
  created_block = 1;
  created_tx = [];
}

abbrev outcome : Outcome
outcome = record { label = []; current_price_wad = 5; current_shares = pos 4 }

-- One market with three outcomes, and no trades.
abbrev opened : State database
opened = record {
  markets = λ k. some market;
  outcomes = λ k. some outcome;
  trades = λ k. none;
  positions = λ k. none;
  proposals = λ k. none;
  banned = λ k. none;
  categories = λ k. none;
  drafts = λ k. none;
  price_points = λ k. none;
  touched = [];
  ref_cache = [];
  invalidated = [];
  published = [];
}

abbrev trade_log : NormalizedLog
trade_log = record {
  address = codes "0xAb";
  payload = ls_lmsr other_engine_event;
  block_number = 7;
  tx_hash = codes "0x1";
  log_index = 2;
  timestamp = 7000;
}

abbrev purchase : TradeArgs
purchase = record {
  market_id = 1;
  account = codes "0xCd";
  outcome_id = 0;
  shares = 4;
  amount = 3;
  spread_wad = 0;
}

abbrev holding : Position
holding = record { shares = 10; cost_basis = 7; realized_pnl = pos 0; is_redeemed = false }

replay-on_trade_example :
    (database.trades.find (twice trade_log buy purchase opened).trades (codes "0x1", 2)
      ≡ some (record {
        market_ref = (codes "0xab", 1);
        account = codes "0xcd";
        side = buy;
        outcome_index = 0;
        shares = 4;
        amount = 3;
        spread_wad = 0;
        price_wad = 750_000_000_000_000_000;
        block_number = trade_log.block_number;
        timestamp = 7000;
      }))
    × (database.markets.find
          (twice trade_log buy purchase opened).markets
          (log_key trade_log purchase)
        ≡ some (record market { pot = pos 10 +ℤ signed buy 3 +ℤ signed buy 3 }))
    × (database.outcomes.find
          (twice trade_log buy purchase opened).outcomes
          (log_key trade_log purchase, 0)
        ≡ some (record outcome { current_shares = pos 4 +ℤ signed buy 4 +ℤ signed buy 4 }))
unfolding to_lower numera_backend.Prelude.to_lower_char
replay-on_trade_example = replay-on_trade trade_log buy purchase opened refl refl

abbrev whale : Position
whale = record holding { shares = 10 ^ 21 }

abbrev heavy : State database
heavy = record opened { positions = λ k. some whale }

threw-rescanned_example :
    (on_trade trade_log sell purchase (rescanned trade_log purchase 2 heavy)
      ≡ threw (rescanned trade_log purchase 3 heavy))
    × (database.positions.find
          (rescanned trade_log purchase 2 heavy).positions
          (position_key trade_log purchase)
        ≡ some whale)
    × (database.markets.find
          (rescanned trade_log purchase 2 heavy).markets
          (log_key trade_log purchase)
        ≡ some (record market { pot = taken purchase 2 (pos 10) }))
threw-rescanned_example = threw-rescanned trade_log purchase 2 heavy refl refl refl refl

below-is_plain : (n : ℕ) → n < 10 ^ 21 → ltb n (10 ^ 21) ≡ true
below-is_plain n h = lt→ltb n (10 ^ 21) h

net-run_position_example :
    (q : Option Position) × (run_position
        (λ n. ltb n (10 ^ 21))
        none
        ((buy, (10, 7)) ∷ (sell, (4, 9)) ∷ [])
      ≡ some q)
    × (net q ≡ cash_flow (pos 0) ((buy, (10, 7)) ∷ (sell, (4, 9)) ∷ []))
net-run_position_example =
    net-run_position (λ n. ltb n (10 ^ 21)) (10 ^ 21) below-is_plain
      ((buy, (10, 7)) ∷ (sell, (4, 9)) ∷ []) (omega arith) (omega arith)

sum_bases-short_parts_example : sum_bases (short_parts 10 (1 ∷ 2 ∷ 3 ∷ [])) ≡ 10
sum_bases-short_parts_example = sum_bases-short_parts 10 (1 ∷ 2 ∷ 3 ∷ []) (omega arith)

went_through :
    on_short trade_log purchase opened ≡ done (after (on_short trade_log purchase opened))
unfolding on_short numera_backend.Events.State.with_market numera_backend.Events.State.has
    numera_backend.Events.Shorts.short_market numera_backend.Events.Shorts.legs_from
    numera_backend.Events.Shorts.short_on numera_backend.Events.Shorts.credit_legs
    numera_backend.Events.Shorts.leg_parts numera_backend.Events.Shorts.credit_leg
    numera_backend.Events.Trades.update_position numera_backend.Events.Trades.write_position
    numera_backend.Events.Trades.is_readable numera_backend.Store.Functions.put
    numera_backend.Prelude.text_eq to_lower numera_backend.Prelude.to_lower_char
    numera_backend.Events.State.update_market
went_through = refl

held-on_short_example :
    held (after (on_short trade_log purchase opened)) (codes "0xab", 1) (codes "0xcd") 2
    ≡ held opened (codes "0xab", 1) (codes "0xcd") 2 + 4
unfolding to_lower numera_backend.Prelude.to_lower_char
held-on_short_example =
    held-on_short trade_log purchase opened (after (on_short trade_log purchase opened)) market 2
      refl went_through

abbrev proposal : ProposedArgs
proposal = record {
  subject = record { market = codes "0xAb"; market_id = 1 };
  proposer = codes "0xC1";
  outcome = 2;
  bond = 50;
  bonded = true;
  dispute_deadline = 99;
}

abbrev externals : Externals
externals = record {
  bytes32_to_string = λ t. t;
  codec = record { parse_json = λ t. none; stringify = λ v. []; keccak = λ t. t };
  chain = record { is_ready = false; read_prices = λ ref. none; now = 0 };
}

proposals-apply_resolver_example :
    proposal_at
      (codes "0xab", 1)
      (after (
        apply_resolver externals trade_log
          (proposal_made proposal)
          (after (apply_resolver externals trade_log (proposal_made proposal) opened))))
    ≡ proposal_at
        (codes "0xab", 1)
        (after (apply_resolver externals trade_log (proposal_made proposal) opened))
proposals-apply_resolver_example =
    proposals-apply_resolver externals trade_log (proposal_made proposal) (codes "0xab", 1) opened

-- The same, with the account holding every outcome.
abbrev holders : State database
holders = record opened { positions = λ k. some holding }

credit-on_redeem_example :
    (database.markets.find
        (after (on_redeem (codes "0xab") 1 (codes "0xcd") 6 holders)).markets
        (codes "0xab", 1)
      ≡ some (record market { pot = pos 10 -ℤ pos 6 }))
    × (database.positions.find
          (after (on_redeem (codes "0xab") 1 (codes "0xcd") 6 holders)).positions
          ((codes "0xab", 1), (codes "0xcd", 2))
        ≡ some (record holding { realized_pnl = pos 0 +ℤ pos 6; is_redeemed = true }))
unfolding to_lower numera_backend.Prelude.to_lower_char
credit-on_redeem_example =
    credit-on_redeem (codes "0xab") 1 (codes "0xcd") 6 holders refl 2 holding refl

abbrev ban : BannedArgs
ban = record { account = codes "0xCd"; context = codes "0xAb"; market_id = 1; at = 9 }

is_barred-apply_blocklist_example :
    is_barred (codes "0xcd") (after (apply_blocklist externals trade_log (banned ban) opened))
    ≡ true
unfolding numera_backend.Events.Bans.Status.barred_after numera_backend.Prelude.text_eq to_lower
    numera_backend.Prelude.to_lower_char
is_barred-apply_blocklist_example =
    is_barred-apply_blocklist externals trade_log (banned ban) (codes "0xcd") opened
