-- ===== src/Events/Trades/Positions.antt =====
-- The position ledger of `updatePosition` (src/chain/event-processor.service.ts): one sell, and a
-- history of trades.
use native.Mathlib.Nat.{div-le_of_le-mul, mul-div_cancel, div-mul-le_self, lt-div-mul-add}
use numera_backend.Prelude.{
  ℕ, ◌+◌, ◌-◌, ◌*◌, ◌≤◌, ◌<◌, ◌≡◌, refl, ap, ◌∙◌, Bool, true, Option, none, some, List, [], ◌∷◌,
  arith, if◌then◌else◌,
}
use numera_backend.Prelude.Int.{ℤ, pos, ◌+ℤ◌, ◌-ℤ◌, sub_ℕ, int_laws, pos_part, neg_part}
use numera_backend.Events.Data.{TradeSide, buy, sell, short}
use numera_backend.Events.Rows.{Position}
use numera_backend.Events.Trades.{
  sold_shares, cost_removed, sell_position, buy_position, position_after, is_readable,
}

sold_shares-le : (shares old : ℕ) → sold_shares shares old ≤ old
unfolding sold_shares
sold_shares-le shares old = ground arith

sold_shares-eq : (shares old : ℕ) → shares ≤ old → sold_shares shares old ≡ shares
unfolding sold_shares
sold_shares-eq shares old h = ground arith

sub_sub : (c r : ℕ) → r ≤ c → c - (c - r) ≡ r
sub_sub c r h = omega arith

mul_bound : (n c k : ℕ) → k ≤ n → c * k ≤ n * c
mul_bound n c k h = grind arith

cost_removed-le : (n c k : ℕ) → k ≤ n → cost_removed n c k ≤ c
unfolding cost_removed
cost_removed-le n c k h = ground (arith, div-le_of_le-mul n {m = c * k} {n = c} (mul_bound n c k h))

-- The removed basis is the sold shares' part of the cost, rounded down.
cost_removed_floor :
    (n c k : ℕ) → 0 < n → (cost_removed n c k * n ≤ c * k) × (c * k < cost_removed n c k * n + n)
unfolding cost_removed
cost_removed_floor n c k h =
    ground (arith, div-mul-le_self (c * k) n, lt-div-mul-add {a = c * k} {b = n} h)

cost_removed_all : (n c : ℕ) → 0 < n → cost_removed n c n ≡ c
unfolding cost_removed
cost_removed_all n c h = ground (arith, mul-div_cancel c {n = n} h)

-- Nothing is lost or made up by a sell of any size: what is left and what went out add up to the row
-- before, for the shares and for the cost basis.
pub sell_position-conserves :
    (shares amount : ℕ) (p : Position)
    → let sold : ℕ = sold_shares shares p.shares in
      let q : Position = sell_position shares amount (some p) in
      (q.shares + sold ≡ p.shares)
      × (q.cost_basis + cost_removed p.shares p.cost_basis sold ≡ p.cost_basis)
unfolding sell_position
sell_position-conserves shares amount p = ground (
  arith,
  sold_shares-le shares p.shares,
  cost_removed-le p.shares p.cost_basis (sold_shares shares p.shares),
)

-- When some shares are held, a sell of everything, or of more than there is, leaves no shares and no cost basis, and realizes
-- the proceeds less the whole basis.
pub sell_position_closing :
    (shares amount : ℕ) (p : Position)
    → 0 < p.shares
    → p.shares ≤ shares
    → sell_position shares amount (some p) ≡ record p {
      shares = 0;
      cost_basis = 0;
      realized_pnl = p.realized_pnl +ℤ sub_ℕ amount p.cost_basis;
    }
unfolding sell_position sold_shares
sell_position_closing shares amount p some_held all =
    ground (arith, cost_removed_all p.shares p.cost_basis some_held)

-- A sell of no more shares than are held, some of them being held, takes out the shares and their
-- part of the cost basis, rounded down.
pub sell_position_partial :
    (shares amount : ℕ) (p : Position)
    → 0 < p.shares
    → shares ≤ p.shares
    → let removed : ℕ = p.cost_basis - (sell_position shares amount (some p)).cost_basis in
      ((sell_position shares amount (some p)).shares ≡ p.shares - shares)
      × (removed * p.shares ≤ p.cost_basis * shares)
      × (p.cost_basis * shares < removed * p.shares + p.shares)
unfolding sell_position
sell_position_partial shares amount p held part =
    let le = cost_removed-le p.shares p.cost_basis shares part in
    rw
      (
        sold_shares-eq shares p.shares part,
        sub_sub p.cost_basis (cost_removed p.shares p.cost_basis shares) le,
      )
      (let floor = cost_removed_floor p.shares p.cost_basis shares held in (refl, floor.0, floor.1))

-- Realized profit less the cost of what is still held.
abbrev pub net : Option Position → ℤ
net none = pos 0
net (some p) = p.realized_pnl -ℤ pos p.cost_basis

-- What a trade brings the account: a sell its proceeds, a buy less its cost.
abbrev pub flow : TradeSide → ℕ → ℤ
flow sell amount = pos amount
flow _ amount = pos 0 -ℤ pos amount

sub_ℕ_parts : (a b : ℕ) → pos_part (sub_ℕ a b) + b ≡ neg_part (sub_ℕ a b) + a
sub_ℕ_parts a b = ground arith

shift_by :
    (r x : ℤ) (a m b q : ℕ)
    → pos_part x + m ≡ neg_part x + a
    → q + m ≡ b
    → (r +ℤ x) -ℤ pos q ≡ (r -ℤ pos b) +ℤ pos a
shift_by r x a m b q h k = omega int_laws

shift_down : (r : ℤ) (b c : ℕ) → r -ℤ pos (b + c) ≡ (r -ℤ pos b) +ℤ (pos 0 -ℤ pos c)
shift_down r b c = omega int_laws

net-sell :
    (shares amount : ℕ) (o : Option Position)
    → net (some (sell_position shares amount o)) ≡ net o +ℤ pos amount
unfolding sell_position
net-sell shares amount none = omega int_laws
net-sell shares amount (some p) =
    let sold : ℕ = sold_shares shares p.shares in
    let removed : ℕ = cost_removed p.shares p.cost_basis sold in
    shift_by p.realized_pnl (sub_ℕ amount removed) amount removed p.cost_basis
      (p.cost_basis - removed) (sub_ℕ_parts amount removed)
      (omega (arith, cost_removed-le p.shares p.cost_basis sold (sold_shares-le shares p.shares)))

net-buy :
    (shares amount : ℕ) (o : Option Position)
    → net (some (buy_position shares amount o)) ≡ net o +ℤ (pos 0 -ℤ pos amount)
unfolding buy_position
net-buy shares amount none = omega int_laws
net-buy shares amount (some p) = shift_down p.realized_pnl p.cost_basis amount

net-position_after :
    (side : TradeSide) (shares amount : ℕ) (o : Option Position)
    → net (some (position_after side shares amount o)) ≡ net o +ℤ flow side amount
unfolding position_after
net-position_after sell shares amount o = net-sell shares amount o
net-position_after buy shares amount o = net-buy shares amount o
net-position_after short shares amount o = net-buy shares amount o

-- The trades of one account in one outcome, oldest first: side, shares and amount.
abbrev pub Trades : Type 0
Trades = List (TradeSide × (ℕ × ℕ))

-- The position after a history, none where a sell cannot read its row.
unfoldable pub run_position : (ℕ → Bool) → Option Position → Trades → Option (Option Position)
run_position is_plain o [] = some o
run_position is_plain o ((side, (shares, amount)) ∷ ts) =
    let rest = run_position is_plain (some (position_after side shares amount o)) ts in
    if is_readable is_plain side o then rest else none

unfoldable pub cash_flow : ℤ → Trades → ℤ
cash_flow acc [] = acc
cash_flow acc ((side, (shares, amount)) ∷ ts) = cash_flow (acc +ℤ flow side amount) ts

-- The shares and the costs of a trade that is no sell.
abbrev pub gain : TradeSide → ℕ → ℕ
gain sell n = 0
gain _ n = n

abbrev pub bought : Trades → ℕ
bought [] = 0
bought ((side, (shares, amount)) ∷ ts) = gain side shares + bought ts

abbrev pub paid : Trades → ℕ
paid [] = 0
paid ((side, (shares, amount)) ∷ ts) = gain side amount + paid ts

abbrev shares_of : Option Position → ℕ
shares_of none = 0
shares_of (some p) = p.shares

abbrev basis_of : Option Position → ℕ
basis_of none = 0
basis_of (some p) = p.cost_basis

position_after_le :
    (side : TradeSide) (shares amount : ℕ) (o : Option Position)
    → let q : Position = position_after side shares amount o in
      (q.shares ≤ shares_of o + gain side shares) × (q.cost_basis ≤ basis_of o + gain side amount)
unfolding position_after sell_position buy_position
position_after_le sell shares amount none = (omega arith, omega arith)
position_after_le sell shares amount (some p) = (omega arith, omega arith)
position_after_le buy shares amount none = (omega arith, omega arith)
position_after_le buy shares amount (some p) = (omega arith, omega arith)
position_after_le short shares amount none = (omega arith, omega arith)
position_after_le short shares amount (some p) = (omega arith, omega arith)

module _ (is_plain : ℕ → Bool) (limit : ℕ) (plain : (n : ℕ) → n < limit → is_plain n ≡ true) where
  is_readable_below :
      (side : TradeSide) (o : Option Position)
      → shares_of o < limit
      → basis_of o < limit
      → is_readable is_plain side o ≡ true
  unfolding is_readable
  is_readable_below sell none h k = refl
  is_readable_below sell (some p) h k = rw (plain p.shares h, plain p.cost_basis k) refl
  is_readable_below buy o h k = refl
  is_readable_below short o h k = refl

  net-run_from :
      (o : Option Position) (ts : Trades)
      → shares_of o + bought ts < limit
      → basis_of o + paid ts < limit
      → (q : Option Position) × (run_position is_plain o ts ≡ some q)
        × (net q ≡ cash_flow (net o) ts)
  unfolding run_position cash_flow
  net-run_from o [] h k = (o, refl, refl)
  net-run_from o ((side, (shares, amount)) ∷ ts) h k =
      let le = position_after_le side shares amount o in
      let (q, e, n) =
        net-run_from (some (position_after side shares amount o)) ts (omega (arith, le.0, h))
          (omega (arith, le.1, k)) in
      (
        q,
        ap
              (λ b.
                if b
                then run_position is_plain (some (position_after side shares amount o)) ts
                else none)
              (is_readable_below side o (omega (arith, h)) (omega (arith, k)))
            ∙ e,
        n ∙ ap (λ z. cash_flow z ts) (net-position_after side shares amount o),
      )

  -- When numbers below a limit have plain texts: a history of buys and sells whose bought shares, and
  -- whose costs, stay below the limit in all goes through, and what the position has realized less
  -- what it still holds at cost is then exactly the proceeds received less the costs paid.
  pub net-run_position :
      (ts : Trades)
      → bought ts < limit
      → paid ts < limit
      → (q : Option Position) × (run_position is_plain none ts ≡ some q)
        × (net q ≡ cash_flow (pos 0) ts)
  net-run_position ts h k = net-run_from none ts (omega (arith, h)) (omega (arith, k))
