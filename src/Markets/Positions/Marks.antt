-- ===== src/Markets/Positions/Marks.antt =====
-- What a position is marked at.
use native.Mathlib.Nat.{div-le_of_le-mul}
use numera_backend.Prelude.{
  ℕ, ◌*◌, ◌/◌, ◌≤◌, ◌≡◌, ◌≢◌, inl, inr, refl, sym, ◌∙◌, ◌==◌, Bool, true, false, Bool-cases, Option,
  some, arith, if◌then◌else◌,
}
use numera_backend.Events.Data.{MarketStatus, trading, resolved, invalid}
use numera_backend.Events.Rows.{Market, Outcome, Position}
use numera_backend.Markets.Positions.{wad, is_winner, live_mark, mark_by_status, mark_to_market}

price_bound : (shares price : ℕ) → price ≤ wad → shares * price ≤ wad * shares
price_bound shares price h = grind arith

mark_bound : (shares price : ℕ) → price ≤ wad → shares * price / wad ≤ shares
mark_bound shares price h =
    div-le_of_le-mul wad {m = shares * price} {n = shares} (price_bound shares price h)

some_inj : {a b : ℕ} → ◌≡◌ {A = Option ℕ} (some a) (some b) → a ≡ b
some_inj h = cc

winner_bound : (b : Bool) (shares : ℕ) → (if b then shares else 0) ≤ shares
winner_bound true shares = omega arith
winner_bound false shares = omega arith

mark_by_status-le :
    (status : MarketStatus) (shares index : ℕ) (winner : Option ℕ) (o : Outcome) (p : Position)
    (v : ℕ)
    → status ≢ invalid
    → o.current_price_wad ≤ wad
    → mark_by_status status shares index winner (some o) p ≡ some v
    → v ≤ shares
unfolding mark_by_status live_mark
mark_by_status-le resolved shares index winner o p v refunded price h =
    omega (arith, winner_bound (is_winner index winner) shares, some_inj h)
mark_by_status-le invalid shares index winner o p v refunded price h = absurd (refunded refl)
mark_by_status-le trading shares index winner o p v refunded price h =
    omega (arith, mark_bound shares o.current_price_wad price, some_inj h)

-- Unless its market is void, a position in an outcome priced at no more than one is marked at no more
-- than a unit of collateral for each of its shares.
pub mark_to_market-le :
    (m : Market) (index : ℕ) (p : Position) (o : Outcome) (v : ℕ)
    → m.status ≢ invalid
    → o.current_price_wad ≤ wad
    → mark_to_market m index p (some o) ≡ some v
    → v ≤ p.shares
unfolding mark_to_market
mark_to_market-le m index p o v live price h = elim (Bool-cases (p.shares == 0)) [
  | inl e ↦ omega (arith, some_inj {a = 0} {b = v} (sym (rw e refl) ∙ h))
  | inr e ↦
      mark_by_status-le m.status p.shares index m.winning_outcome_id o p v live price
        (sym (rw e refl) ∙ h)
]
