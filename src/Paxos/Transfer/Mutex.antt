-- ===== src/Paxos/Transfer/Mutex.antt =====
-- The mutex that a state transfer holds (`initiateStateTransfer`, `getPeerClient` of
-- multipaxos_kvstore/server/paxos_server.go).
use go_distributed_system_de.Base.{
  ◌⊎◌, inl, inr, false, ℤ, ℕ, String, Bool, List, [], ◌∷◌, none, some, ◌≡◌, ◌≢◌, ◌↔◌, refl, arith,
}
use go_distributed_system_de.Types.Entry.{LogEntry}
use go_distributed_system_de.Paxos.State.{PaxosServer}
use go_distributed_system_de.Paxos.Transfer.{
  RwMutex, unlocked, nothing_missing, r_lock, lock, get_peer_client, transfer_to, missing_entries,
  initiate_state_transfer,
}

-- Under a reader's lock the mutex cannot be taken for writing.
lock-r_lock : (m held : RwMutex) → r_lock m ≡ some held → lock held ≡ none
unfolding r_lock lock
lock-r_lock m held h = ground arith

transfer-blocks :
    (m : RwMutex) (peer : ℤ) (addr : String) (dialled : Bool) (missing : List LogEntry)
    (s : PaxosServer)
    → lock m ≡ none
    → (transfer_to m peer addr dialled missing s ≡ none) ↔ (missing ≢ [])
unfolding transfer_to get_peer_client
transfer-blocks m peer addr dialled [] s h = ((λ k. cc), (λ k. absurd (k refl)))
transfer-blocks m peer addr dialled (entry ∷ missing) s h =
    ((λ k e. cc), (λ k. rw (h, transfer_to, get_peer_client)))

transfer-ends :
    (m : RwMutex) (peer : ℤ) (addr : String) (dialled : Bool) (missing : List LogEntry)
    (s : PaxosServer)
    → lock m ≡ none
    → let r = transfer_to m peer addr dialled missing s in
      ((missing ≢ []) × (r ≡ none)) ⊎ ((missing ≡ []) × (r ≡ some (nothing_missing, s)))
unfolding transfer_to get_peer_client
transfer-ends m peer addr dialled [] s h = inr (refl, refl)
transfer-ends m peer addr dialled (entry ∷ missing) s h =
    inl ((λ e. ground (arith, e)), rw (h, transfer_to, get_peer_client))

-- A transfer blocks, or has nothing to send and changes nothing.
pub initiate_state_transfer-ends :
    (peer : ℤ) (addr : String) (dialled : Bool) (peer_length : ℤ) (leader_length : ℕ)
    (s : PaxosServer)
    → let missing = missing_entries peer_length leader_length s.ps in
      let r = initiate_state_transfer unlocked peer addr dialled peer_length leader_length s in
      ((missing ≢ []) × (r ≡ none)) ⊎ ((missing ≡ []) × (r ≡ some (nothing_missing, s)))
unfolding initiate_state_transfer r_lock
initiate_state_transfer-ends peer addr dialled peer_length leader_length s =
    let held : RwMutex = record { readers = 1; writer = false } in
    transfer-ends held peer addr dialled (missing_entries peer_length leader_length s.ps) s
      (lock-r_lock unlocked held refl)

-- Whenever the mutex can be taken for reading and the log holds an entry that the peer lacks, the
-- transfer blocks on its own lock, whatever the peer and the dial; with nothing to send it does not.
pub initiate_state_transfer_blocks :
    (m held : RwMutex) (peer : ℤ) (addr : String) (dialled : Bool) (peer_length : ℤ)
    (leader_length : ℕ) (s : PaxosServer)
    → r_lock m ≡ some held
    → (initiate_state_transfer m peer addr dialled peer_length leader_length s ≡ none)
      ↔ (missing_entries peer_length leader_length s.ps ≢ [])
unfolding initiate_state_transfer
initiate_state_transfer_blocks m held peer addr dialled peer_length leader_length s h =
    rw (h, initiate_state_transfer)
      (transfer-blocks held peer addr dialled (missing_entries peer_length leader_length s.ps) s
        (lock-r_lock m held h))
