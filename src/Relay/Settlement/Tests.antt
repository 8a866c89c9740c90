-- ===== src/Relay/Settlement/Tests.antt =====
-- One proposal whose settlement fails, and eleven of which ten are backing off.
use numera_backend.Prelude.{
  ◌≡◌, ◌==◌, if◌then◌else◌, refl, true, false, none, some, List, [], ◌∷◌, codes, arith, All, take,
}
use numera_backend.Relay.Settlement.{
  ProposalKey, Keeper, RelayAnswers, finalize, is_waiting, settle_due, batch,
}
use numera_backend.Relay.Settlement.Backoff.{finalize-retried, settle_due-starved}

abbrev answers : RelayAnswers
answers = record {
  is_enabled = true;
  has_resolver = true;
  send = λ key. none;
  reverted = λ hash. none;
  now = 1_000_000;
}

abbrev soon : RelayAnswers
soon = record answers { now = 1_059_999 }

abbrev late : RelayAnswers
late = record answers { now = 2_800_000 }

abbrev fresh : Keeper
fresh = record { next_attempt = λ key. none; attempts = λ key. none; sent = [] }

abbrev proposal : ProposalKey
proposal = (codes "0xa", 1)

finalize-retried_example : is_waiting late proposal (finalize answers proposal fresh) ≡ false
finalize-retried_example = finalize-retried answers late proposal fresh (omega arith)

-- All but the last are to be tried again later.
abbrev backing_off : Keeper
backing_off = record fresh {
  next_attempt = λ (key : ProposalKey). if key.1 == 11 then none else some 2_000_000;
}

abbrev due : List ProposalKey
due =
    (codes "0xa", 1)
    ∷ (codes "0xa", 2)
    ∷ (codes "0xa", 3)
    ∷ (codes "0xa", 4)
    ∷ (codes "0xa", 5)
    ∷ (codes "0xa", 6)
    ∷ (codes "0xa", 7)
    ∷ (codes "0xa", 8)
    ∷ (codes "0xa", 9)
    ∷ (codes "0xa", 10)
    ∷ (codes "0xa", 11)
    ∷ []

ten_waiting : All (λ key. is_waiting answers key backing_off ≡ true) (take batch due)
unfolding is_waiting
ten_waiting = (refl, (refl, (refl, (refl, (refl, (refl, (refl, (refl, (refl, (refl, tt))))))))))

settle_due-starved_example : settle_due answers due backing_off ≡ backing_off
settle_due-starved_example = settle_due-starved answers due backing_off ten_waiting
