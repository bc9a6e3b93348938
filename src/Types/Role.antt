-- ===== src/Types/Role.antt =====
-- `ServerState` of multipaxos_kvstore/types/types.go.
use go_distributed_system_de.Base.{Bool, true, false, String}

pub data ServerState : Type 0 where
  follower candidate leader default : ServerState

-- s == Leader
abbrev pub is_leader : ServerState → Bool
is_leader leader = true
is_leader _ = false

-- s == Follower
abbrev pub is_follower : ServerState → Bool
is_follower follower = true
is_follower _ = false

unfoldable pub show : ServerState → String
show follower = "Follower"
show candidate = "Candidate"
show leader = "Leader"
show default = "Unknown"
