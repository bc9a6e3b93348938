-- ===== src/ViewClient/Turns.antt =====
-- The client keeps its connection and its primary together (client_main/client/client_func.go).
use go_distributed_system_de.Base.{
  String, Bool, true, false, not, ◌&&◌, List, [], ◌∷◌, Option, none, some, ◌≡◌, refl, inl, inr,
  arith, str_eq, if◌then◌else◌, Bool-cases,
}
use go_distributed_system_de.Views.{View, is_empty}
use go_distributed_system_de.Replica.{Response, done, err_not_primary, err_no_key}
use go_distributed_system_de.ViewClient.{
  Client, Turn, update_primary, drop_conn, drop_primary, TurnEnd, return, again, nil_client,
  get_answer, put_answer, Reading, find_primary, turn, carry_on, loop, get, put,
}

-- A client that names a primary is connected to it.
abbrev pub Connected : Client → Type 0
Connected ck = is_empty ck.current_primary ≡ false → ck.primary_client ≡ some ck.current_primary

-- The turn returned, or goes on connected: it did not call through a nil client.
abbrev pub Sound : TurnEnd → Type 0
Sound (return value ck) = Connected ck
Sound (again ck) = Connected ck
Sound nil_client = ⊥

pub empty_is_empty : is_empty "" ≡ true
empty_is_empty = refl

drop_conn-Connected :
    (conn : Option String) (ck : Client)
    → is_empty ck.current_primary ≡ true
    → Connected (drop_conn conn ck)
drop_conn-Connected none ck e h = ground arith
drop_conn-Connected (some conn) ck e h = ground arith

drop_primary-Connected : (ck : Client) → Connected (drop_primary ck)
drop_primary-Connected ck =
    drop_conn-Connected ck.primary_conn (record ck { current_primary = "" }) empty_is_empty

redialled-Connected :
    (name : String) (dialled : Bool) (ck : Client)
    → Connected (
        if dialled
        then record { current_primary = name; primary_client = some name; primary_conn = some name }
        else record ck { current_primary = "" })
redialled-Connected name true ck e = refl
redialled-Connected name false ck e = ground (arith, empty_is_empty)

update_primary-Connected :
    (view : Option View) (dialled : Bool) (ck : Client)
    → Connected ck
    → Connected (update_primary view dialled ck)
unfolding update_primary
update_primary-Connected none dialled ck h = h
update_primary-Connected (some view) dialled ck h =
    elim (Bool-cases
      (not (is_empty view.primary) && not (str_eq view.primary ck.current_primary))) [
        | inl e ↦ rw e (redialled-Connected view.primary dialled ck)
        | inr e ↦ rw e h
      ]

-- A reading of answers that keeps the client sound.
abbrev pub KeepsSound : Reading → Type 0
KeepsSound read = (answer : Option Response) (ck : Client) → Connected ck → Sound (read answer ck)

pub get_answer-Sound : KeepsSound get_answer
unfolding get_answer
get_answer-Sound (some (done value)) ck h = h
get_answer-Sound (some err_no_key) ck h = h
get_answer-Sound (some err_not_primary) ck h = drop_primary-Connected ck
get_answer-Sound none ck h = drop_primary-Connected ck

pub put_answer-Sound : KeepsSound put_answer
unfolding put_answer
put_answer-Sound (some (done value)) ck h = h
put_answer-Sound (some err_no_key) ck h = h
put_answer-Sound (some err_not_primary) ck h = drop_primary-Connected ck
put_answer-Sound none ck h = drop_primary-Connected ck

find_primary-Connected : (t : Turn) (ck : Client) → Connected ck → Connected (find_primary t ck)
find_primary-Connected t ck h = elim (Bool-cases (is_empty ck.current_primary)) [
  | inl e ↦ rw e (update_primary-Connected t.view t.dialled ck h)
  | inr e ↦ rw e h
]

pub turn-Sound :
    (read : Reading)
    → KeepsSound read
    → (t : Turn) (ck : Client) → Connected ck
    → Sound (turn read t ck)
unfolding turn
turn-Sound read keeps t ck h =
    let ck' = find_primary t ck in
    let c = find_primary-Connected t ck h in
    elim (Bool-cases (is_empty ck'.current_primary)) [
      | inl e ↦ rw e c
      | inr e ↦ rw (e, c e) (keeps (t.answer ck'.current_primary) ck' c)
    ]

carry_on-Sound :
    (rest : Client → TurnEnd) (end : TurnEnd)
    → ((ck : Client) → Connected ck → Sound (rest ck))
    → Sound end
    → Sound (carry_on rest end)
unfolding carry_on
carry_on-Sound rest (return value ck) keeps s = s
carry_on-Sound rest (again ck) keeps s = keeps ck s
carry_on-Sound rest nil_client keeps s = elim s [ ]

loop-Sound :
    (read : Reading)
    → KeepsSound read
    → (turns : List Turn) (ck : Client) → Connected ck
    → Sound (loop read turns ck)
unfolding loop
loop-Sound read keeps [] ck h = h
loop-Sound read keeps (t ∷ turns) ck h =
    carry_on-Sound (loop read turns) (turn read t ck) (loop-Sound read keeps turns)
      (turn-Sound read keeps t ck h)

-- However the servers and the network behave, a client that is connected to the primary that it names
-- never calls through a nil client, in a Get or a Put, and is so connected afterwards.
pub loops-Sound :
    (turns : List Turn) (ck : Client) → Connected ck → Sound (get turns ck) × Sound (put turns ck)
unfolding get put
loops-Sound turns ck h = (
  loop-Sound get_answer get_answer-Sound turns ck h,
  loop-Sound put_answer put_answer-Sound turns ck h,
)
