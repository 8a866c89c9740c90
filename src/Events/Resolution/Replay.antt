-- ===== src/Events/Resolution/Replay.antt =====
-- A resolver log that is processed twice (src/chain/event-processor.service.ts).
use numera_backend.Prelude.{
  ◌≡◌, refl, sym, ap, ◌∙◌, Bool, true, false, Bool-cases, inl, inr, Option, none, some,
  if◌then◌else◌, arith,
}
use numera_backend.Store.{Store, map_option}
use numera_backend.Events.Data.{
  MarketKey, NormalizedLog, Subject, ProposedArgs, SlashedArgs, ResolverEvent, proposal_made,
  proposal_disputed, proposal_finalized, proposal_arbitrated, slashed, proposal_abandoned,
  dispute_reset, other_resolver_event,
}
use numera_backend.Events.Rows.{Proposal}
use numera_backend.Events.State.{Database, State, after, market_key_eq}
use numera_backend.Events.Resolution.{
  subject_key, subject_ref, announce_resolution, change_proposal, settle_step, proposed_row,
  on_proposed, disputed_row, finalized_row, arbitrated_row, slashed_row, cleared_row, on_disputed,
  on_finalized, on_arbitrated, on_slashed, on_resolution_cleared,
}
use numera_backend.Events.Batch.{Externals, apply_resolver}

changed :
    (change : Proposal → Proposal) (b : Bool) (o : Option Proposal)
    → ((p : Proposal) → change (change p) ≡ change p)
    → map_option (λ p. if b then change p else p) (map_option (λ p. if b then change p else p) o)
      ≡ map_option (λ p. if b then change p else p) o
changed change true none same = refl
changed change true (some p) same = ap some (same p)
changed change false none same = refl
changed change false (some p) same = refl

write-again :
    (rows : Store MarketKey Proposal) (key k : MarketKey) (row row' : Proposal) (t : rows.Table)
    → row' ≡ row
    → rows.find (rows.write (rows.write t key row) key row') k ≡ rows.find (rows.write t key row) k
write-again rows key k row row' t same = elim (Bool-cases (market_key_eq.beq key k)) [
  | inl e ↦
      let here : key ≡ k = (market_key_eq.beq_iff key k).0 e in
      ap (rows.find (rows.write (rows.write t key row) key row')) (sym here)
      ∙ rows.find-write_self (rows.write t key row) key row'
      ∙ ap some same
      ∙ sym (rows.find-write_self t key row)
      ∙ ap (rows.find (rows.write t key row)) here
  | inr e ↦
      rows.find-write_ne _ key k row' (λ h. ground (arith, e, (market_key_eq.beq_iff key k).1 h))
]

module _ {D : Database} where
  announce-proposals :
      (o : Option MarketKey) (key : MarketKey) (s : State D)
      → (announce_resolution o key s).proposals ≡ s.proposals
  unfolding announce_resolution
  announce-proposals none key s = refl
  announce-proposals (some ref) key s = refl

  announce-markets :
      (o : Option MarketKey) (key : MarketKey) (s : State D)
      → (announce_resolution o key s).markets ≡ s.markets
  unfolding announce_resolution
  announce-markets none key s = refl
  announce-markets (some ref) key s = refl

  -- A proposal as it is stored.
  abbrev pub proposal_at : MarketKey → State D → Option Proposal
  proposal_at key s = D.proposals.find s.proposals key

  proposal_at-change_proposal :
      (key k : MarketKey) (change : Proposal → Proposal) (s : State D)
      → proposal_at k (change_proposal key change s)
        ≡ map_option (λ p. if market_key_eq.beq k key then change p else p) (proposal_at k s)
  unfolding change_proposal
  proposal_at-change_proposal key k change s = D.proposals.find-update_many s.proposals _ _ k

  change_proposal-again :
      (key k : MarketKey) (change : Proposal → Proposal) (s t : State D)
      → ((p : Proposal) → change (change p) ≡ change p)
      → t.proposals ≡ (change_proposal key change s).proposals
      → proposal_at k (change_proposal key change t) ≡ proposal_at k t
  change_proposal-again key k change s t same e =
      let once = ap (λ x. D.proposals.find x k) e ∙ proposal_at-change_proposal key k change s in
      proposal_at-change_proposal key k change t
      ∙ ap (map_option (λ p. if market_key_eq.beq k key then change p else p)) once
      ∙ changed change (market_key_eq.beq k key) (proposal_at k s) same
      ∙ sym once

  settle_step-again :
      (subject : Subject) (change : Proposal → Proposal) (k : MarketKey) (s : State D)
      → ((p : Proposal) → change (change p) ≡ change p)
      → proposal_at k (after (settle_step subject change (after (settle_step subject change s))))
        ≡ proposal_at k (after (settle_step subject change s))
  unfolding settle_step
  settle_step-again subject change k s same =
      let key = subject_key subject in
      let t = after (settle_step subject change s) in
      ap (λ x. D.proposals.find x k) (announce-proposals _ key (change_proposal key change t))
      ∙ change_proposal-again key k change s t same
          (announce-proposals _ key (change_proposal key change s))

  on_proposed-again :
      (log : NormalizedLog) (a : ProposedArgs) (k : MarketKey) (s : State D)
      → proposal_at k (after (on_proposed log a (after (on_proposed log a s))))
        ≡ proposal_at k (after (on_proposed log a s))
  unfolding on_proposed subject_ref
  on_proposed-again log a k s =
      let key = subject_key a.subject in
      let ref = subject_ref key s in
      let row = proposed_row log a ref in
      let s1 : State D = record s { proposals = D.proposals.write s.proposals key row } in
      let t = after (on_proposed log a s) in
      let markets_kept : t.markets ≡ s.markets = announce-markets ref key s1 in
      let same : proposed_row log a (subject_ref key t) ≡ row =
        ap (λ x. proposed_row log a (map_option (λ m. key) (D.markets.find x key))) markets_kept in
      let stored = announce-proposals ref key s1 in
      ap (λ x. D.proposals.find x k) (announce-proposals (subject_ref key t) key _)
      ∙ ap
          (λ x.
            D.proposals.find (D.proposals.write x key (proposed_row log a (subject_ref key t))) k)
          stored
      ∙ write-again D.proposals key k row (proposed_row log a (subject_ref key t)) s.proposals same
      ∙ sym (ap (λ x. D.proposals.find x k) stored)

  on_slashed-again :
      (log : NormalizedLog) (a : SlashedArgs) (k : MarketKey) (s : State D)
      → proposal_at k (after (on_slashed log a (after (on_slashed log a s))))
        ≡ proposal_at k (after (on_slashed log a s))
  unfolding on_slashed slashed_row
  on_slashed-again log a k s =
      change_proposal-again (subject_key a.subject) k (slashed_row log a) s
        (change_proposal (subject_key a.subject) (slashed_row log a) s) (λ p. refl) refl

  -- A resolver log that is applied twice leaves every stored proposal as it was after the first time.
  pub proposals-apply_resolver :
      (x : Externals) (log : NormalizedLog) (e : ResolverEvent) (k : MarketKey) (s : State D)
      → proposal_at k (after (apply_resolver x log e (after (apply_resolver x log e s))))
        ≡ proposal_at k (after (apply_resolver x log e s))
  unfolding apply_resolver on_disputed on_finalized on_arbitrated on_resolution_cleared disputed_row
      finalized_row arbitrated_row cleared_row
  proposals-apply_resolver x log (proposal_made a) k s = on_proposed-again log a k s
  proposals-apply_resolver x log (proposal_disputed a) k s =
      settle_step-again a.subject (disputed_row a) k s (λ p. refl)
  proposals-apply_resolver x log (proposal_finalized a) k s =
      settle_step-again a.subject (finalized_row log a) k s (λ p. refl)
  proposals-apply_resolver x log (proposal_arbitrated a) k s =
      settle_step-again a.subject (arbitrated_row a) k s (λ p. refl)
  proposals-apply_resolver x log (slashed a) k s = on_slashed-again log a k s
  proposals-apply_resolver x log (proposal_abandoned a) k s =
      settle_step-again a cleared_row k s (λ p. refl)
  proposals-apply_resolver x log (dispute_reset a) k s =
      settle_step-again a cleared_row k s (λ p. refl)
  proposals-apply_resolver x log other_resolver_event k s = refl
