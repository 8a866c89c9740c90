-- ===== src/Markets/Queue/Exclusive.antt =====
-- A closed market waits in one queue.
use numera_backend.Prelude.{
  ℕ, ◌+◌, ◌<◌, ◌≡◌, ◌≢◌, refl, true, false, ◌&&◌, Option, some, ltb, leb, arith,
}
use numera_backend.Events.Data.{ResolutionPhase, proposed, none_phase, disputed, settled}
use numera_backend.Events.Rows.{Market, Proposal}
use numera_backend.Markets.View.{
  is_trading, is_proposed, is_disputed, is_none_phase, is_unproposed, deadline_of, is_disputable,
}
use numera_backend.Markets.View.Windows.{count}
use numera_backend.Markets.Queue.{ClosedMarket, is_awaiting, is_past_window}

phase_count :
    (phase : ResolutionPhase) (now deadline : ℕ)
    → phase ≢ settled
    → (is_proposed phase && leb now deadline) ≡ false
    → count (is_none_phase phase)
        + count (is_disputed phase)
        + count (is_proposed phase && ltb deadline now)
      ≡ 1
unfolding is_proposed is_disputed is_none_phase
phase_count none_phase now deadline unsettled over = refl
phase_count proposed now deadline unsettled over = ground (arith, over)
phase_count disputed now deadline unsettled over = refl
phase_count settled now deadline unsettled over = absurd (unsettled refl)

-- A market that is closed, with a resolution that is not settled and whose dispute window is not
-- open, is counted in exactly one of the three queues: awaiting a proposal, disputed, or ready to be
-- finalized.
pub is_awaiting-exclusive :
    (now : ℕ) (m : ClosedMarket) (r : Proposal) (market : Option Market)
    → is_trading m.market.status ≡ true
    → m.market.close_time < now
    → m.resolution ≡ some r
    → r.phase ≢ settled
    → is_disputable now r ≡ false
    → count (is_awaiting now m)
        + count (is_disputed r.phase)
        + count (is_past_window now (record { key = m.key; proposal = r; market = market }))
      ≡ 1
unfolding is_awaiting is_past_window is_disputable is_unproposed
is_awaiting-exclusive now m r market trades closed found unsettled over =
    rw (trades, found, is_closed) (phase_count r.phase now (deadline_of r) unsettled over)
  where
    is_closed : ltb m.market.close_time now ≡ true
    is_closed = ground (arith, closed)
