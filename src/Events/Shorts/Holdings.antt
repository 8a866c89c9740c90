-- ===== src/Events/Shorts/Holdings.antt =====
-- What a short does to the positions of the trader.
use numera_backend.Prelude.{
  ℕ, ◌+◌, ◌*◌, ◌≡◌, ◌≢◌, ◌==◌, refl, not, ◌&&◌, Option, none, some, List, [], ◌∷◌, arith, ltb,
  if◌then◌else◌, Text, to_lower, to_lower_idem, ap, sym, ◌∙◌,
}
use numera_backend.Events.Data.{MarketKey, PositionKey, TradeArgs, NormalizedLog, buy, short}
use numera_backend.Events.Rows.{Market, Position}
use numera_backend.Events.State.{
  Database, State, Run, done, after, >>=-eq-done, update_outcome, update_outcome-eq-done,
  update_market-eq-done, update_market, touch-positions, with_market-listed,
}
use numera_backend.Events.Trades.{
  update_position, is_readable, write_position, position_after, buy_position, insert_trade,
  trade_row,
}
use numera_backend.Events.Shorts.{
  short_legs, short_parts, credit_leg, credit_legs, short_on, short_market, on_short, leg_parts,
}
use numera_backend.Events.Shorts.Legs.{credits, credits-short_parts}

abbrev shares_of : Option Position → ℕ
shares_of none = 0
shares_of (some p) = p.shares

-- The shares of an account in an outcome; no row is none.
abbrev pub held : {D : Database} → State D → MarketKey → Text → ℕ → ℕ
held {D} s ref account j = shares_of (D.positions.find s.positions (ref, (account, j)))

shares_of-buy :
    (shares amount : ℕ) (o : Option Position)
    → shares_of (some (position_after buy shares amount o)) ≡ shares_of o + shares
unfolding position_after buy_position
shares_of-buy shares amount none = omega arith
shares_of-buy shares amount (some p) = refl

module _ {D : Database} (ref : MarketKey) (account : Text) (shares : ℕ) where
  held-update_self :
      (i basis : ℕ) (s : State D)
      → held (write_position ref account i buy shares basis s) ref (to_lower account) i
        ≡ held s ref (to_lower account) i + shares
  unfolding write_position
  held-update_self i basis s =
      rw (D.positions.find-write_self _ _ _)
        (shares_of-buy shares basis (D.positions.find s.positions (ref, (to_lower account, i))))

  held-update_ne :
      (i basis : ℕ) (s : State D) (j : ℕ)
      → i ≢ j
      → held (write_position ref account i buy shares basis s) ref (to_lower account) j
        ≡ held s ref (to_lower account) j
  unfolding write_position
  held-update_ne i basis s j h =
      ap shares_of (D.positions.find-write_ne _ _ _ _ (λ e. h (ap (λ (k : PositionKey). k.1.1) e)))

  held-write_position :
      (i basis : ℕ) (s : State D) (j : ℕ)
      → held (write_position ref account i buy shares basis s) ref (to_lower account) j
        ≡ held s ref (to_lower account) j + (if i == j then 1 else 0) * shares
  held-write_position i basis s j =
      ground (arith, held-update_self i basis s, held-update_ne i basis s j)

  -- The writes of one leg, when its outcome is there.
  held-credit_leg :
      (i basis : ℕ) (s s' : State D) (j : ℕ)
      → credit_leg ref account shares (i, basis) s ≡ done s'
      → held s' ref (to_lower account) j
        ≡ held s ref (to_lower account) j + (if i == j then 1 else 0) * shares
  unfolding credit_leg update_position is_readable
  held-credit_leg i basis s s' j h =
      let (s1, e, r) = >>=-eq-done (update_outcome ref i _ s) _ h in
      let kept = (update_outcome-eq-done ref i _ s s1 e).0 in
      let moved = held-write_position i basis s1 j in
      let final = ap (λ (x : Run (State D)). held (after x) ref (to_lower account) j) r in
      let before = ap (λ t. shares_of (D.positions.find t (ref, (to_lower account, j)))) kept in
      sym final ∙ moved ∙ ap (λ n. n + (if i == j then 1 else 0) * shares) before

  -- The loop credits an outcome as often as it stands among the parts.
  held-credit_legs :
      (parts : List (ℕ × ℕ)) (s s' : State D) (j : ℕ)
      → credit_legs ref account shares parts s ≡ done s'
      → held s' ref (to_lower account) j
        ≡ held s ref (to_lower account) j + credits parts j * shares
  unfolding credit_legs credits
  held-credit_legs [] s s' j h =
      let same = ap (λ (x : Run (State D)). held (after x) ref (to_lower account) j) h in
      omega (arith, same)
  held-credit_legs ((i, basis) ∷ parts) s s' j h =
      let (s1, e, r) = >>=-eq-done (credit_leg ref account shares (i, basis) s) _ h in
      grind (arith, held-credit_leg i basis s s1 j e, held-credit_legs parts s1 s' j r)

module _ {D : Database} (log : NormalizedLog) (a : TradeArgs) where
  held-short_on :
      (ref : MarketKey) (legs : List ℕ) (s s' : State D) (j : ℕ)
      → short_on log a ref legs s ≡ done s'
      → held s' ref (to_lower a.account) j
        ≡ held s ref (to_lower a.account) j + credits (short_parts a.amount legs) j * a.shares
  unfolding short_on
  held-short_on ref legs s s' j h =
      let account = to_lower a.account in
      let s1 = insert_trade log (trade_row log ref short a) s in
      let loop = credit_legs ref account a.shares (short_parts a.amount legs) in
      let (s2, e, r) = >>=-eq-done (loop s1) _ h in
      let (s3, f, q) = >>=-eq-done (update_market ref _ s2) _ r in
      let same_end = ap (λ (x : Run (State D)). (after x).positions) q in
      let same = sym same_end ∙ touch-positions ref s3 ∙ (update_market-eq-done ref _ s2 s3 f).0 in
      let moved = held-credit_legs ref account a.shares (short_parts a.amount legs) s1 s2 j e in
      ap (λ t. shares_of (D.positions.find t (ref, (account, j)))) same
      ∙ (rw (to_lower_idem a.account) at moved)

  held-short_market :
      (ref : MarketKey) (m : Market) (legs : List ℕ) (s s' : State D) (j : ℕ)
      → elim legs as (λ _. Run (State D)) [
        | [] ↦ done s
        | i ∷ rest ↦ short_on log a ref (i ∷ rest) s
      ]
        ≡ done s'
      → held s' ref (to_lower a.account) j
        ≡ held s ref (to_lower a.account) j + credits (short_parts a.amount legs) j * a.shares
  held-short_market ref m [] s s' j h =
      let same = ap (λ (x : Run (State D)). held (after x) ref (to_lower a.account) j) h in
      unfold credits leg_parts in omega (arith, same)
  held-short_market ref m (i ∷ legs) s s' j h = held-short_on ref (i ∷ legs) s s' j h

  -- A short of a listed market that goes through adds its shares to the trader's holding of every
  -- outcome of the market but the shorted one, and leaves the holding of the shorted one, and of
  -- any index past the market's outcomes, as it was.
  pub held-on_short :
      (s s' : State D) (m : Market) (j : ℕ)
      → D.markets.find s.markets (to_lower log.address, a.market_id) ≡ some m
      → on_short log a s ≡ done s'
      → held s' (to_lower log.address, a.market_id) (to_lower a.account) j
        ≡ held s (to_lower log.address, a.market_id) (to_lower a.account) j
          + (if ltb j m.outcome_count && not (j == a.outcome_id) then a.shares else 0)
  unfolding on_short short_market
  held-on_short s s' m j listed h =
      let key : MarketKey = (to_lower log.address, a.market_id) in
      let rest = λ (ref : MarketKey) (t : State D).
        short_market log a ref t (D.markets.find t.markets ref) in
      let (cache, e) = with_market-listed s log.address a.market_id rest listed in
      let s0 : State D = record s { ref_cache = cache } in
      let run = sym (ap (λ r. short_market log a key s0 r) listed) ∙ sym e ∙ h in
      let legs : List ℕ = short_legs a.outcome_id m.outcome_count in
      let moved = held-short_market key m legs s0 s' j run in
      ground (arith, moved, credits-short_parts a.amount a.outcome_id m.outcome_count j)
