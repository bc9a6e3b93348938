-- ===== src/Programs.antt =====
-- The programs around the components: what they read from their flags and their input, and what
-- they do with it (multipaxos_kvstore/main.go, multipaxos_kvstore/client/client.go,
-- client_main/client.go).
pub mod Shell
pub mod Lines
pub mod Once
pub mod Sequence
pub mod Covered
pub mod ServerMain
pub mod Outsider
mod Tests
use Prim.Native.String.{◌++◌}
use Prim.Native.Nat.{◌+◌}
use go_distributed_system_de.Base.{ℕ, zero, suc, String, List, [], ◌∷◌, ℤ, pos, negsuc}
use go_distributed_system_de.Text.{decimal}

-- `count` addresses on this machine, from number `idx` on.
unfoldable pub addresses_from : ℕ → ℕ → List String
addresses_from zero idx = []
addresses_from (suc count) idx =
    ("localhost:" ++ decimal (pos (8000 + idx))) ∷ addresses_from count (suc idx)

-- for idx:=1; idx<=peers; idx++ { append(servers, Sprintf("localhost:%d", 8000+idx)) }
unfoldable pub addresses : ℤ → List String
addresses (pos n) = addresses_from n 1
addresses (negsuc n) = []
