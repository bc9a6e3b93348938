-- ===== src/KvClient/Search.antt =====
-- Which server a client's request ends at (multipaxos_kvstore/client/client.go).
use go_distributed_system_de.Base.{
  ℕ, suc, ◌+◌, true, false, List, [], ◌∷◌, ◌++◌, Option, none, some, length, ◌≡◌, refl, ap, ◌∙◌,
  arith,
}
use go_distributed_system_de.Rpc.Server.{ClientResponse}
use go_distributed_system_de.KvClient.{
  Call, Found, settle, try_servers, write, get, finished, tried_all, key_not_found,
}

-- An answer that is no success.
abbrev pub Declined : Option ClientResponse → Type 0
Declined none = Unit
Declined (some resp) = resp.success ≡ false

-- Every server that has a call declines, the world going from `w` to `w'`.
abbrev pub AllDecline : {W : Type 0} → List (Option (Call W)) → W → W → Type 0
AllDecline [] w w' = w ≡ w'
AllDecline (none ∷ calls) w w' = AllDecline calls w w'
AllDecline (some call ∷ calls) w w' = Declined (call w).0 × AllDecline calls (call w).1 w'

settle-Declined :
    {W : Type 0} (i : ℕ) (rest : W → Found W) (r : Option ClientResponse × W)
    → Declined r.0
    → settle i rest r ≡ rest r.1
unfolding settle
settle-Declined i rest (none, w) d = refl
settle-Declined i rest (some resp, w) d = rw d refl

-- When every server declines, the client has called each of them and reports a failure.
pub all_decline :
    {W : Type 0} (calls : List (Option (Call W))) (i : ℕ) (w w' : W)
    → AllDecline calls w w'
    → try_servers calls i w ≡ (none, w')
unfolding try_servers
all_decline [] i w w' h = ap (λ x. (none, x)) h
all_decline (none ∷ calls) i w w' h = all_decline calls (suc i) w w' h
all_decline (some call ∷ calls) i w w' (d, h) =
    settle-Declined i (try_servers calls (suc i)) (call w) d
    ∙ all_decline calls (suc i) (call w).1 w' h

settle_success :
    {W : Type 0} (i : ℕ) (rest : W → Found W) (r : Option ClientResponse × W)
    (resp : ClientResponse) (w : W)
    → r ≡ (some resp, w)
    → resp.success ≡ true
    → settle i rest r ≡ (some (i, resp), w)
unfolding settle
settle_success i rest r resp w e s = rw e (rw s refl)

first_success :
    {W : Type 0} (before after : List (Option (Call W))) (call : Call W) (i : ℕ) (w w' w'' : W)
    (resp : ClientResponse)
    → AllDecline before w w'
    → call w' ≡ (some resp, w'')
    → resp.success ≡ true
    → try_servers (before ++ some call ∷ after) i w ≡ (some (i + length before, resp), w'')
unfolding try_servers
first_success [] after call i w w' w'' resp h e s =
    let z : i ≡ i + 0 = omega arith in
    settle_success i (try_servers after (suc i)) (call w) resp w'' (ap call h ∙ e) s
    ∙ ap (λ n. (some (n, resp), w'')) z
first_success (none ∷ before) after call i w w' w'' resp h e s =
    let z : suc i + length before ≡ i + suc (length before) = omega arith in
    first_success before after call (suc i) w w' w'' resp h e s ∙ ap (λ n. (some (n, resp), w'')) z
first_success (some c ∷ before) after call i w w' w'' resp (d, h) e s =
    let z : suc i + length before ≡ i + suc (length before) = omega arith in
    settle-Declined i (try_servers (before ++ some call ∷ after) (suc i)) (c w) d
    ∙ first_success before after call (suc i) (c w).1 w' w'' resp h e s
    ∙ ap (λ n. (some (n, resp), w'')) z

-- A request ends at the first server that answers with success: the servers before it have been
-- called, in order, and have declined; those after it are not called. A write then reports no error, a
-- Get returns the value answered.
pub request_finds_server :
    {W : Type 0} (before after : List (Option (Call W))) (call : Call W) (w w' w'' : W)
    (resp : ClientResponse)
    → AllDecline before w w'
    → call w' ≡ (some resp, w'')
    → resp.success ≡ true
    → (try_servers (before ++ some call ∷ after) 0 w ≡ (some (length before, resp), w''))
      × (write (before ++ some call ∷ after) w ≡ (finished "", w''))
      × (get (before ++ some call ∷ after) w ≡ (finished resp.value, w''))
unfolding write get
request_finds_server before after call w w' w'' resp h e s =
    let f = first_success before after call 0 w w' w'' resp h e s in
    let z : 0 + length before ≡ length before = omega arith in
    (f ∙ ap (λ n. (some (n, resp), w'')) z, rw f refl, rw f refl)

-- When every server declines, and so when there are none, the client has called each that it has a
-- connection to, in order, and reports its error: a write that all were tried, a Get that there is
-- no such key, whatever the reason was.
pub request_fails :
    {W : Type 0} (calls : List (Option (Call W))) (w w' : W)
    → AllDecline calls w w'
    → (write calls w ≡ (tried_all, w')) × (get calls w ≡ (key_not_found, w'))
unfolding write get
request_fails calls w w' h = let f = all_decline calls 0 w w' h in (rw f refl, rw f refl)
