-- ===== src/Events/Bans.antt =====
-- The ban list: `onBanned` and `onUnbanned` of src/chain/event-processor.service.ts.
pub mod Status
use numera_backend.Prelude.{◌*◌, none, some, Text, to_lower, text_eq, if◌then◌else◌, text_key}
use numera_backend.Store.{upsert}
use numera_backend.Events.Data.{BannedArgs, NormalizedLog}
use numera_backend.Events.Rows.{BannedAccount}
use numera_backend.Events.State.{Database, State, Run, done}
use numera_backend.Events.Resolution.{zero_address}

-- A zero context means an operator banned directly, with no market behind it.
unfoldable pub ban_row : NormalizedLog → BannedArgs → BannedAccount
ban_row log a =
    let context = to_lower a.context in
    let direct = text_eq context zero_address in
    record {
      context = if direct then none else some context;
      market_id = if direct then none else some a.market_id;
      banned_at = a.at * 1000;
      lifted_at = none;
      tx_hash = some log.tx_hash;
    }

module _ {D : Database} where
  unfoldable pub on_banned : NormalizedLog → BannedArgs → State D → Run (State D)
  unfolding upsert
  on_banned log a s = done (record s {
    banned = upsert D.banned s.banned (to_lower a.account) (ban_row log a) (λ old. ban_row log a);
  })

  unfoldable pub on_unbanned : NormalizedLog → Text → State D → Run (State D)
  on_unbanned log account s = done (record s {
    banned =
        D.banned.update_many s.banned (λ k b. text_eq k (to_lower account))
          (λ b. record b { lifted_at = some log.timestamp; tx_hash = some log.tx_hash });
  })
