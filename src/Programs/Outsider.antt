-- ===== src/Programs/Outsider.antt =====
-- Which servers the server program starts (multipaxos_kvstore/main.go).
use go_distributed_system_de.Base.{
  ℕ, zero, suc, ◌==◌, ◌+◌, ◌*◌, ◌/◌, ◌%◌, ◌≤◌, ◌<◌, ◌≤ℤ◌, ◌<ℤ◌, int_eq, eqb_ℤ, ◌∷◌, [], ◌||◌,
  String, Bool, true, false, List, Outcome, ok, err, panic, length, ◌≡◌, ◌⊎◌, inl, inr, refl, subst,
  Bool-cases, arith, ℤ, pos, negsuc, pos_part, ltb_ℤ, if◌then◌else◌,
}
use go_distributed_system_de.Persistence.{PersistentState, IoError}
use go_distributed_system_de.Paxos.State.{PaxosServer, Error, majority, new_paxos_server}
use go_distributed_system_de.Programs.{addresses, addresses_from}
use go_distributed_system_de.Programs.ServerMain.{
  Flags, Machine, Started, bad_server_id, serves, listen, build, server_main, data_dir_of,
}

length-addresses_from : (n idx : ℕ) → length (addresses_from n idx) ≡ n
unfolding addresses_from
length-addresses_from zero idx = refl
length-addresses_from (suc n) idx = omega (arith, length-addresses_from n (suc idx))

length-addresses : (n : ℤ) → length (addresses n) ≡ pos_part n
unfolding addresses
length-addresses (pos n) = length-addresses_from n 1
length-addresses (negsuc n) = refl

-- A server with the number and the peers of the flags, and a number from 0 to 4.
pub record Serves (f : Flags) (s : PaxosServer) : Type 0 where
  pub id : s.server_id ≡ f.id
  pub peers : s.peers ≡ addresses f.peers
  pub lowest : pos 0 ≤ℤ f.id
  pub highest : f.id ≤ℤ pos 4

abbrev pub StartOutcome : Flags → Started → Type 0
StartOutcome f (serves s) = Serves f s
StartOutcome f bad_server_id = (f.id <ℤ pos 0) ⊎ (pos 4 <ℤ f.id)
StartOutcome f _ = Unit

-- A new server has the number and the peers that it is given.
abbrev NewOutcome : Flags → Outcome Error PaxosServer → Type 0
NewOutcome f (ok s) = (s.server_id ≡ f.id) × (s.peers ≡ addresses f.peers)
NewOutcome f _ = Unit

new-Outcome :
    (f : Flags) (o : Outcome IoError PersistentState) (leads : Bool) (now : ℕ)
    → NewOutcome f (new_paxos_server f.id (addresses f.peers) o leads now)
unfolding new_paxos_server
new-Outcome f (ok ps) true now = (refl, refl)
new-Outcome f (ok ps) false now = (refl, refl)
new-Outcome f (err e) leads now = tt
new-Outcome f panic leads now = tt

listen-Outcome :
    (f : Flags) (m : Machine) (o : Outcome Error PaxosServer)
    → pos 0 ≤ℤ f.id
    → f.id ≤ℤ pos 4
    → NewOutcome f o
    → StartOutcome f (listen f m o)
unfolding listen
listen-Outcome f m (ok s) l h (i, p) = elim (Bool-cases (m.listens f.port)) [
  | inl e ↦ rw e (record { id = i; peers = p; lowest = l; highest = h })
  | inr e ↦ rw e tt
]
listen-Outcome f m (err e) l h n = tt
listen-Outcome f m panic l h n = tt

build-Outcome :
    (f : Flags) (m : Machine) (dir : String)
    → pos 0 ≤ℤ f.id
    → f.id ≤ℤ pos 4
    → StartOutcome f (build f m dir)
unfolding build
build-Outcome f m dir l h = elim (Bool-cases (m.make_dir dir)) [
  | inl e ↦ rw e (listen-Outcome f m _ l h (new-Outcome f (m.load dir) f.role_leader m.now))
  | inr e ↦ rw e tt
]

-- The server program serves only with a number from 0 to 4, and then with that number and the peers
-- of its flags; it refuses the number only if it is not from 0 to 4.
pub server_main_lem : (f : Flags) (m : Machine) → StartOutcome f (server_main f m)
unfolding server_main
server_main_lem f m = elim (Bool-cases (ltb_ℤ f.id (pos 0) || ltb_ℤ (pos 4) f.id)) [
  | inl e ↦ rw e (ground arith)
  | inr e ↦ elim (Bool-cases (m.make_dir (data_dir_of f))) [
    | inl d ↦
        rw (e, d) (build-Outcome f m (m.join_state (data_dir_of f)) (ground arith) (ground arith))
    | inr d ↦ rw (e, d) tt
  ]
]

-- The servers that vote in an election: ourselves, and each peer that the loop does not skip.
unfoldable pub others : ℕ → List String → ℤ → ℕ
others i [] id = 0
others i (peer ∷ peers) id = (if eqb_ℤ (pos i) id then 0 else 1) + others (suc i) peers id

abbrev pub voters : PaxosServer → ℕ
voters s = 1 + others 0 s.peers s.server_id

others_outside :
    (i k : ℕ) (peers : List String) → i + length peers ≤ k → others i peers (pos k) ≡ length peers
unfolding others
others_outside i k [] h = refl
others_outside i k (peer ∷ peers) h = ground (arith, others_outside (suc i) k peers)

others_before : (i k : ℕ) (peers : List String) → k < i → others i peers (pos k) ≡ length peers
unfolding others
others_before i k [] h = refl
others_before i k (peer ∷ peers) h = ground (arith, others_before (suc i) k peers)

others_inside :
    (i k : ℕ) (peers : List String)
    → i ≤ k
    → k < i + length peers
    → 1 + others i peers (pos k) ≡ length peers
unfolding others
others_inside i k [] h l = absurd (omega (arith, h, l))
others_inside i k (peer ∷ peers) h l =
    ground (arith, others_inside (suc i) k peers, others_before (suc i) k peers)

twice_half : (n v : ℕ) → v ≡ n → (n % 2 ≡ 0) ⊎ (2 * (n / 2 + 1) ≤ 1 + v)
twice_half n v h = elim (Bool-cases (n % 2 == 0)) [
  | inl e ↦ inl (ground arith)
  | inr e ↦ inr (ground arith)
]

voters_cases :
    (id peers : ℤ)
    → pos 0 ≤ℤ id
    → ((id <ℤ peers) × (1 + others 0 (addresses peers) id ≡ length (addresses peers)))
      ⊎ ((peers ≤ℤ id) × (others 0 (addresses peers) id ≡ length (addresses peers)))
voters_cases (negsuc n) peers h = absurd (omega (arith, h))
voters_cases (pos k) peers h = elim (Bool-cases (ltb_ℤ (pos k) peers)) [
  | inl e ↦ inl (
    ground arith,
    others_inside 0 k (addresses peers) (omega arith) (ground (arith, length-addresses peers)),
  )
  | inr e ↦
      inr (
        ground arith,
        others_outside 0 k (addresses peers) (ground (arith, length-addresses peers)),
      )
]

-- When the server program serves under a number below that of its peers, any two majorities of the
-- servers that it counts on share one. Under a number that is accepted but is not below that of
-- its peers it counts one voter more than its list of peers has, and if the list is odd, twice the majority
-- that it asks for is no more than these voters: two majorities can have no server in common.
pub majorities_meet :
    (f : Flags) (m : Machine) (s : PaxosServer)
    → server_main f m ≡ serves s
    → ((f.id <ℤ f.peers) × (voters s < 2 * majority s))
      ⊎ ((f.peers ≤ℤ f.id)
          × (voters s ≡ length s.peers + 1)
          × ((length s.peers % 2 ≡ 0) ⊎ (2 * majority s ≤ voters s)))
majorities_meet f m s e =
    let h : Serves f s = subst (StartOutcome f) e (server_main_lem f m) in
    let c = voters_cases f.id f.peers h.lowest in
    rw (h.id, h.peers)
      (elim c [
        | inl (l, v) ↦ inl (l, omega (arith, v))
        | inr (l, v) ↦ inr (
          l,
          omega (arith, v),
          twice_half (length (addresses f.peers)) (others 0 (addresses f.peers) f.id) v,
        )
      ])
