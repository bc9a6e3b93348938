-- ===== src/Programs/Covered.antt =====
-- When the list of operations runs out of keys or values (client_main/client.go).
use go_distributed_system_de.Base.{
  ℕ, suc, zero, ltb, String, Bool, true, false, ◌&&◌, List, [], ◌∷◌, some, none, str_eq, get_elem?,
  length, if◌then◌else◌, ◌≡◌, ◌⊎◌, inl, inr, refl, Bool-cases, arith,
}
use go_distributed_system_de.ViewClient.{Client, TurnEnd, return, again, nil_client}
use go_distributed_system_de.ViewClient
use go_distributed_system_de.Programs.Sequence.{
  Network, Printed, got, completed, End, all_done, out_of_range, nil_panic, waits, Run, after_turns,
  get_at, put_at, run_op, run_ops,
}

-- The operation at position `i` finds its key, and a put its value.
abbrev pub covers_op : List String → List String → ℕ → String → Bool
covers_op keys values i op =
    if str_eq op "get"
    then ltb i (length keys)
    else if str_eq op "put"
    then ltb i (length keys) && ltb i (length values)
    else true

unfoldable pub covers : List String → List String → ℕ → List String → Bool
covers keys values i [] = true
covers keys values i (op ∷ ops) = covers_op keys values i op && covers keys values (suc i) ops

-- All is done only if the keys and values suffice, and an index is out of range only if not.
abbrev pub EndsAs : Bool → End → Type 0
EndsAs b (all_done ck) = b ≡ true
EndsAs b out_of_range = b ≡ false
EndsAs b nil_panic = Unit
EndsAs b waits = Unit

elem_cases :
    (xs : List String) (i : ℕ)
    → ((x : String) × (get_elem? xs i ≡ some x) × (ltb i (length xs) ≡ true))
      ⊎ ((get_elem? xs i ≡ none) × (ltb i (length xs) ≡ false))
elem_cases [] i = inr (refl, ground arith)
elem_cases (x ∷ xs) zero = inl (x, refl, ground arith)
elem_cases (x ∷ xs) (suc i) = elim (elem_cases xs i) [
  | inl (y, e, l) ↦ inl (y, e, ground arith)
  | inr (e, l) ↦ inr (e, ground arith)
]

after_turns-EndsAs :
    (b : Bool) (line : String → Printed) (rest : Client → Run) (t : TurnEnd)
    → ((ck : Client) → EndsAs b (rest ck).1)
    → EndsAs b (after_turns line rest t).1
unfolding after_turns
after_turns-EndsAs b line rest (return value ck) h = h ck
after_turns-EndsAs b line rest (again ck) h = tt
after_turns-EndsAs b line rest nil_client h = tt

module _ (net : Network) (keys values : List String) (i : ℕ) (ck : Client) (rest : Client → Run)
    (b : Bool) (h : (ck : Client) → EndsAs b (rest ck).1) where
  get-EndsAs : EndsAs (ltb i (length keys) && b) (get_at net i (get_elem? keys i) ck rest).1
  unfolding get_at
  get-EndsAs = elim (elem_cases keys i) [
    | inl (key, e, l) ↦
        rw (e, l) (after_turns-EndsAs b (got key) rest (ViewClient.get (net.get_turns i key) ck) h)
    | inr (e, l) ↦ rw (e, l) refl
  ]

  put-EndsAs :
      EndsAs
        ((ltb i (length keys) && ltb i (length values)) && b)
        (put_at net i (get_elem? keys i) (get_elem? values i) ck rest).1
  unfolding put_at
  put-EndsAs = elim (elem_cases keys i) [
    | inl (key, e, l) ↦ elim (elem_cases values i) [
      | inl (value, e', l') ↦
          rw (e, l, e', l')
            (after_turns-EndsAs b (λ v. completed key value) rest
              (ViewClient.put (net.put_turns i key value) ck) h)
      | inr (e', l') ↦ rw (e, l, e', l') refl
    ]
    | inr (e, l) ↦ rw (e, l) refl
  ]

  op-EndsAs :
      (op : String)
      → EndsAs (covers_op keys values i op && b) (run_op net keys values i op ck rest).1
  unfolding run_op
  op-EndsAs op = elim (Bool-cases (str_eq op "get")) [
    | inl g ↦ rw (g, run_op) get-EndsAs
    | inr g ↦ elim (Bool-cases (str_eq op "put")) [
      | inl p ↦ rw (g, p, run_op) put-EndsAs
      | inr p ↦ rw (g, p, run_op) (h ck)
    ]
  ]

-- A list of operations is carried out to its end only if every `get` finds a key, and every `put` a
-- key and a value, at its own position in the other two lists; and it ends in an index out of range
-- only if one of them does not. (Otherwise a call has not returned yet, or has gone through a nil client.)
pub run_ops_lem :
    (net : Network) (keys values : List String) (i : ℕ) (ops : List String) (ck : Client)
    → EndsAs (covers keys values i ops) (run_ops net keys values i ops ck).1
unfolding run_ops covers
run_ops_lem net keys values i [] ck = refl
run_ops_lem net keys values i (op ∷ ops) ck =
    op-EndsAs net keys values i ck (run_ops net keys values (suc i) ops)
      (covers keys values (suc i) ops) (λ ck. run_ops_lem net keys values (suc i) ops ck) op
