-- ===== src/Relay/Settlement.antt =====
-- The settlement of unchallenged proposals, src/relay/settlement.service.ts: `settleDue`, `finalize` and
-- `backOff`. The rows are those of the query, the oldest deadline first; the relay's answers and the
-- time are arguments, and one reading of the clock stands for all of a pass. Times are in
-- milliseconds.
pub mod Backoff
mod Tests
use numera_backend.Prelude.{
  ℕ, zero, suc, ◌+◌, ◌-◌, ◌*◌, ◌^◌, min, Bool, true, false, Option, none, some, List, [], ◌∷◌, Text,
  take, ltb, if◌then◌else◌, pair_eq, Eq, text_key, nat_eq,
}

-- The key of the maps: engine address and market id.
abbrev pub ProposalKey : Type 0
ProposalKey = Text × ℕ

abbrev pub proposal_key_eq : Eq ProposalKey
proposal_key_eq = pair_eq

abbrev pub settle_cooldown_ms : ℕ
settle_cooldown_ms = 60_000

abbrev pub base_backoff_ms : ℕ
base_backoff_ms = 60_000

abbrev pub max_backoff_ms : ℕ
max_backoff_ms = 30 * 60_000

abbrev pub batch : ℕ
batch = 10

-- A map of the service.
abbrev pub Times : Type 0
Times = ProposalKey → Option ℕ

unfoldable pub set_time : ProposalKey → Option ℕ → Times → Times
set_time key v m k = if proposal_key_eq.beq key k then v else m k

unfoldable pub or_zero : Option ℕ → ℕ
or_zero none = 0
or_zero (some n) = n

pub record Keeper : Type 0 where
  pub next_attempt : Times
  pub attempts : Times
  -- Proposals whose `finalize` was broadcast, newest first.
  pub sent : List ProposalKey

-- `sendFromRelayer` for a proposal, none where it throws, and whether a receipt says that the
-- transaction reverted, none for no receipt.
pub record RelayAnswers : Type 0 where
  pub is_enabled : Bool
  pub has_resolver : Bool
  pub send : ProposalKey → Option Text
  pub reverted : Text → Option Bool
  pub now : ℕ

unfoldable pub backoff_ms : ℕ → ℕ
backoff_ms n = min (base_backoff_ms * 2 ^ (n - 1)) max_backoff_ms

unfoldable pub back_off : RelayAnswers → ProposalKey → Keeper → Keeper
unfolding backoff_ms or_zero set_time
back_off a key s =
    let n = or_zero (s.attempts key) + 1 in
    record s {
      attempts = set_time key (some n) s.attempts;
      next_attempt = set_time key (some (a.now + backoff_ms n)) s.next_attempt;
    }

unfoldable pub after_receipt : RelayAnswers → ProposalKey → Option Bool → Keeper → Keeper
unfolding back_off
after_receipt a key (some true) s = back_off a key s
after_receipt a key _ s = s

-- What follows the booking, with the relay's answer.
unfoldable pub finalize_sent : RelayAnswers → ProposalKey → Option Text → Keeper → Keeper
unfolding back_off after_receipt set_time
finalize_sent a key none s = back_off a key s
finalize_sent a key (some hash) s =
    after_receipt a key (a.reverted hash)
      (record s { attempts = set_time key none s.attempts; sent = key ∷ s.sent })

unfoldable pub finalize : RelayAnswers → ProposalKey → Keeper → Keeper
unfolding finalize_sent set_time
finalize a key s =
    let booked : Keeper = record s {
      next_attempt = set_time key (some (a.now + settle_cooldown_ms)) s.next_attempt;
    } in
    finalize_sent a key (a.send key) booked

unfoldable pub is_waiting : RelayAnswers → ProposalKey → Keeper → Bool
unfolding or_zero
is_waiting a key s = ltb a.now (or_zero (s.next_attempt key))

unfoldable pub settle_each : RelayAnswers → List ProposalKey → Keeper → Keeper
unfolding is_waiting
settle_each a [] s = s
settle_each a (key ∷ due) s =
    let skipped = settle_each a due s in
    let tried = settle_each a due (finalize a key s) in
    if is_waiting a key s then skipped else tried

unfoldable pub settle_due : RelayAnswers → List ProposalKey → Keeper → Keeper
settle_due a due s = if a.has_resolver then settle_each a (take batch due) s else s

-- One pass of the loop.
unfoldable pub settlement_tick : RelayAnswers → List ProposalKey → Keeper → Keeper
unfolding settle_due
settlement_tick a due s = if a.is_enabled then settle_due a due s else s
