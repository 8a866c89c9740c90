-- ===== src/Relay/Gauge/Tests.antt =====
-- A burst of calls, a read that ends, and calls before and after the cache is stale.
use numera_backend.Prelude.{◌+◌, ◌*◌, ◌≤◌, ◌≡◌, refl, none, some, List, [], ◌∷◌, arith}
use numera_backend.Relay.Gauge.{
  balance_ttl_ms, BalanceEvent, called, settled, cached_balance, balance_run,
}
use numera_backend.Relay.Gauge.Balance.{no_balance, reads_bound}

abbrev events : List BalanceEvent
events =
    called 1000
    ∷ called 1001
    ∷ called 1002
    ∷ settled 1100 (some 7)
    ∷ called 2000
    ∷ called 16_100
    ∷ called 16_101
    ∷ settled 16_200 none
    ∷ []

read_twice : (balance_run events no_balance).reads ≡ 2
unfolding balance_run cached_balance
read_twice = refl

reads_bound_example :
    1000 + (balance_run events no_balance).reads * balance_ttl_ms ≤ 17_000 + balance_ttl_ms
reads_bound_example = reads_bound events 1000 17_000 (omega arith)
