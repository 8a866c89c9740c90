-- ===== src/Events/Resolution.antt =====
-- The bonded resolution layer: `resolutionKey`, `onProposed`, `onDisputed`, `onFinalized`,
-- `onArbitrated`, `onSlashed`, `onResolutionCleared` and `announceResolution` of
-- src/chain/event-processor.service.ts. The rows are keyed by the engine that the log names.
pub mod Replay
use numera_backend.Prelude.{
  ℕ, ◌*◌, ◌==◌, false, Option, none, some, Text, codes, to_lower, text_eq, if◌then◌else◌,
}
use numera_backend.Store.{map_option}
use numera_backend.Events.Data.{
  MarketKey, Subject, ProposedArgs, DisputedArgs, FinalizedArgs, ArbitratedArgs, SlashedArgs,
  NormalizedLog, ResolutionPhase, none_phase, proposed, disputed, settled, finalized, arbitrated,
}
use numera_backend.Events.Rows.{Proposal, resolution}
use numera_backend.Events.State.{Database, State, Run, done, market_key_eq, invalidate, publish}

-- `type(uint32).max`, the outcome that means "void this market".
abbrev pub invalid_outcome : ℕ
invalid_outcome = 4_294_967_295

unfoldable pub outcome_or_void : ℕ → Option ℕ
outcome_or_void v = if v == invalid_outcome then none else some v

abbrev pub zero_address : Text
zero_address = codes "0x0000000000000000000000000000000000000000"

unfoldable pub loser_of : Text → Option Text
loser_of loser = if text_eq (to_lower loser) zero_address then none else some (to_lower loser)

unfoldable pub subject_key : Subject → MarketKey
subject_key a = (to_lower a.market, a.market_id)

-- The row of a fresh proposal: nothing of an earlier cycle is left in it but `settled_tx: null`.
unfoldable pub proposed_row : NormalizedLog → ProposedArgs → Option MarketKey → Proposal
unfolding outcome_or_void
proposed_row log a ref = record {
  market_ref = ref;
  phase = proposed;
  proposer = some (to_lower a.proposer);
  proposed_outcome = outcome_or_void a.outcome;
  proposer_bonded = a.bonded;
  proposer_bond = a.bond;
  dispute_deadline = some (a.dispute_deadline * 1000);
  disputer = none;
  counter_outcome = none;
  disputer_bond = 0;
  arbitration_deadline = none;
  route = none;
  settled_outcome = none;
  reward = 0;
  forfeited = 0;
  loser = none;
  settled_at = none;
  proposed_tx = some log.tx_hash;
  settled_tx = none;
}

unfoldable pub disputed_row : DisputedArgs → Proposal → Proposal
unfolding outcome_or_void
disputed_row a p = record p {
  phase = disputed;
  disputer = some (to_lower a.disputer);
  counter_outcome = outcome_or_void a.counter_outcome;
  disputer_bond = a.bond;
  arbitration_deadline = some (a.arbitration_deadline * 1000);
}

unfoldable pub finalized_row : NormalizedLog → FinalizedArgs → Proposal → Proposal
unfolding outcome_or_void
finalized_row log a p = record p {
  phase = settled;
  route = some finalized;
  settled_outcome = outcome_or_void a.outcome;
  reward = a.reward;
  settled_at = some log.timestamp;
  settled_tx = some log.tx_hash;
}

unfoldable pub arbitrated_row : ArbitratedArgs → Proposal → Proposal
unfolding outcome_or_void loser_of
arbitrated_row a p = record p {
  phase = settled;
  route = some arbitrated;
  settled_outcome = outcome_or_void a.outcome;
  reward = a.reward;
  forfeited = a.forfeited;
  loser = loser_of a.loser;
}

unfoldable pub slashed_row : NormalizedLog → SlashedArgs → Proposal → Proposal
slashed_row log a p = record p {
  loser = some (to_lower a.account);
  forfeited = a.amount;
  settled_at = some log.timestamp;
  settled_tx = some log.tx_hash;
}

unfoldable pub cleared_row : Proposal → Proposal
cleared_row p = record p {
  phase = none_phase;
  proposer = none;
  proposed_outcome = none;
  proposer_bonded = false;
  proposer_bond = 0;
  dispute_deadline = none;
  disputer = none;
  counter_outcome = none;
  disputer_bond = 0;
  arbitration_deadline = none;
}

-- What a message says of the row.
unfoldable pub phase_of : Option Proposal → ResolutionPhase
phase_of none = none_phase
phase_of (some p) = p.phase

unfoldable pub deadline_of : Option Proposal → Option ℕ
deadline_of none = none
deadline_of (some p) = p.dispute_deadline

module _ {D : Database} where
  -- The market's row, if it is indexed.
  unfoldable pub subject_ref : MarketKey → State D → Option MarketKey
  subject_ref key s = map_option (λ m. key) (D.markets.find s.markets key)

  unfoldable pub announce_resolution : Option MarketKey → MarketKey → State D → State D
  unfolding phase_of deadline_of
  announce_resolution none key s = s
  announce_resolution (some ref) key s =
      let row = D.proposals.find s.proposals key in
      publish (resolution ref (phase_of row) (deadline_of row)) (invalidate ref s)

  unfoldable pub on_proposed : NormalizedLog → ProposedArgs → State D → Run (State D)
  unfolding subject_key subject_ref announce_resolution
  on_proposed log a s =
      let key = subject_key a.subject in
      let ref = subject_ref key s in
      let row = proposed_row log a ref in
      done (
        announce_resolution ref key
          (record s { proposals = D.proposals.write s.proposals key row }))

  -- `updateMany({ where: { address, marketId } })`.
  unfoldable pub change_proposal : MarketKey → (Proposal → Proposal) → State D → State D
  change_proposal key change s = record s {
    proposals = D.proposals.update_many s.proposals (λ k p. market_key_eq.beq k key) change;
  }

  unfoldable pub settle_step : Subject → (Proposal → Proposal) → State D → Run (State D)
  unfolding subject_key subject_ref announce_resolution change_proposal
  settle_step subject change s =
      let key = subject_key subject in
      done (announce_resolution (subject_ref key s) key (change_proposal key change s))

  unfoldable pub on_disputed : DisputedArgs → State D → Run (State D)
  unfolding settle_step
  on_disputed a s = settle_step a.subject (disputed_row a) s

  unfoldable pub on_finalized : NormalizedLog → FinalizedArgs → State D → Run (State D)
  unfolding settle_step
  on_finalized log a s = settle_step a.subject (finalized_row log a) s

  unfoldable pub on_arbitrated : ArbitratedArgs → State D → Run (State D)
  unfolding settle_step
  on_arbitrated a s = settle_step a.subject (arbitrated_row a) s

  -- The one step that announces nothing.
  unfoldable pub on_slashed : NormalizedLog → SlashedArgs → State D → Run (State D)
  unfolding subject_key change_proposal
  on_slashed log a s = done (change_proposal (subject_key a.subject) (slashed_row log a) s)

  unfoldable pub on_resolution_cleared : Subject → State D → Run (State D)
  unfolding settle_step
  on_resolution_cleared subject s = settle_step subject cleared_row s
