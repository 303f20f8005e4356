-- ===== src/Pool/Monitoring.antt =====
-- What the monitor of a pool shows.
use open_rfc.Common.{length, ◌+◌, ◌≤◌, ◌≡◌, refl, List, [], ◌∷◌, arith}
use open_rfc.Pool.{Pool, Physical, Config, idle, validating, leased, resetting, closing}
use open_rfc.Pool.Table.{count_of}
use open_rfc.Pool.Shutdown.{is_state, monitor}
use open_rfc.Pool.Resources.{capacity}
use open_rfc.Pool.Steps.{Reach}
use open_rfc.Pool.Bounds.{Reach-FitsLimits}

-- Every connection is in one of the five states.
count_of_states :
    (rs : List Physical)
    → count_of (is_state idle) rs
        + count_of (is_state leased) rs
        + count_of (is_state validating) rs
        + count_of (is_state resetting) rs
        + count_of (is_state closing) rs
      ≡ length rs
count_of_states [] = refl
count_of_states (r ∷ rs) = ground (arith, count_of_states rs)

-- In every state that a pool reaches, the monitor's number of connections is what the capacity check
-- counts, and it and the number of waiters are within the limits.
pub monitor-Reach :
    (config : Config) (p : Pool)
    → Reach config p
    → ((monitor p).connections ≡ capacity p)
      × ((monitor p).connections ≤ p.config.max_connections)
      × ((monitor p).waiting ≤ p.config.max_waiters)
unfolding monitor
monitor-Reach config p r =
    let c = count_of_states p.records in let f = Reach-FitsLimits config p r in ground arith
