-- ===== src/Examples/NetTimes.antt =====
-- The network time of pkg/server/chat_limiter.go at concrete inputs.
use eqrcp.Base.{false}
use eqrcp.Quota.NetTime.{no_net_time}
use eqrcp.Quota.Fetches.{World, Acts, no_act, act, asks, ask}

abbrev cold_world : World
cold_world = record { net = no_net_time; in_flight = 0 }

asks_twice : Acts cold_world (ask false 9 (ask false 5 cold_world))
asks_twice = act (ask false 5 cold_world) (asks false 5) (act _ (asks false 9) no_act)
