-- ===== src/KvClient.antt =====
-- The client of the Multi-Paxos store (`KVClient` of multipaxos_kvstore/client/client.go).
-- `W` is the world that the calls act on. A call of a server is an argument: it answers, or fails with
-- none. A server that could not be dialled at the start has no call at all (`client == nil`).
pub mod Search
use go_distributed_system_de.Base.{
  ℕ, suc, String, Bool, true, false, List, [], ◌∷◌, Option, none, some, if◌then◌else◌, map,
}
use go_distributed_system_de.Rpc.Server.{ClientResponse}

abbrev pub Call : Type 0 → Type 0
Call W = W → Option ClientResponse × W

abbrev pub Found : Type 0 → Type 0
Found W = Option (ℕ × ClientResponse) × W

-- After a call of server `i`: stop at a success, go on otherwise.
unfoldable pub settle : {W : Type 0} → ℕ → (W → Found W) → Option ClientResponse × W → Found W
settle i rest (none, w) = rest w
settle i rest (some resp, w) = if resp.success then (some (i, resp), w) else rest w

-- The servers in order, from number `i` on, until one answers with success.
unfoldable pub try_servers : {W : Type 0} → List (Option (Call W)) → ℕ → W → Found W
unfolding settle
try_servers [] i w = (none, w)
try_servers (none ∷ calls) i w = try_servers calls (suc i) w
try_servers (some call ∷ calls) i w = settle i (try_servers calls (suc i)) (call w)

-- `error` is nil, or says that all the servers were tried.
pub data End : Type 0 where
  finished : String → End
  tried_all key_not_found : End

write_end : Option (ℕ × ClientResponse) → End
write_end none = tried_all
write_end (some (i, resp)) = finished ""

get_end : Option (ℕ × ClientResponse) → End
get_end none = key_not_found
get_end (some (i, resp)) = finished resp.value

-- `Put` and `Delete`.
unfoldable pub write : {W : Type 0} → List (Option (Call W)) → W → End × W
unfolding write_end
write calls w = let (r, w') = try_servers calls 0 w in (write_end r, w')

-- `Get`.
unfoldable pub get : {W : Type 0} → List (Option (Call W)) → W → End × W
unfolding get_end
get calls w = let (r, w') = try_servers calls 0 w in (get_end r, w')

-- The stub of a server: one call for each request.
pub record Stub (W : Type 0) : Type 0 where
  pub put : String → String → Call W
  pub get : String → Call W
  pub delete : String → Call W

-- `KVClient`; a connection is the address that was dialled.
pub record KvClient (W : Type 0) : Type 0 where
  pub servers : List String
  pub clients : List (Option (Stub W))
  pub conns : List (Option String)

dialled : {W : Type 0} → String → Option (Stub W) → Option String
dialled addr none = none
dialled addr (some stub) = some addr

-- `NewKVClient`: `dial` gives no stub where it fails.
unfoldable pub new_kv_client : {W : Type 0} → (String → Option (Stub W)) → List String → KvClient W
unfolding dialled
new_kv_client dial servers = record {
  servers = servers;
  clients = map dial servers;
  conns = map (λ addr. dialled addr (dial addr)) servers;
}

-- `Close`: the connections that it closes.
unfoldable pub close_all : List (Option String) → List String
close_all [] = []
close_all (none ∷ conns) = close_all conns
close_all (some conn ∷ conns) = conn ∷ close_all conns

abbrev pub close : {W : Type 0} → KvClient W → List String
close c = close_all c.conns

-- The calls of a request, on the servers that have a stub.
unfoldable pub calls_of :
    {W : Type 0} → (Stub W → Call W) → List (Option (Stub W)) → List (Option (Call W))
calls_of call [] = []
calls_of call (none ∷ stubs) = none ∷ calls_of call stubs
calls_of call (some stub ∷ stubs) = some (call stub) ∷ calls_of call stubs

abbrev pub put_key : {W : Type 0} → KvClient W → String → String → W → End × W
put_key c key value = write (calls_of (λ stub. stub.put key value) c.clients)

abbrev pub get_key : {W : Type 0} → KvClient W → String → W → End × W
get_key c key = get (calls_of (λ stub. stub.get key) c.clients)

abbrev pub delete_key : {W : Type 0} → KvClient W → String → W → End × W
delete_key c key = write (calls_of (λ stub. stub.delete key) c.clients)
