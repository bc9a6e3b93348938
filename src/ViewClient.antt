-- ===== src/ViewClient.antt =====
-- The client of the primary/backup store (`Client` of client_main/client/client_func.go).
-- One turn of the loops of `Get` and `Put` is a function of what the network does in it. A connection is
-- the address that it goes to.
pub mod Turns
pub mod Returns
mod Tests
use go_distributed_system_de.Base.{
  ℕ, String, Bool, true, false, not, ◌&&◌, List, [], ◌∷◌, Option, none, some, str_eq, if◌then◌else◌,
}
use go_distributed_system_de.Views.{View, is_empty}
use go_distributed_system_de.Replica.{Response, done, err_not_primary, err_no_key}

pub record Client : Type 0 where
  pub current_primary : String
  pub primary_client : Option String
  pub primary_conn : Option String

abbrev pub make_client : Client
make_client = record { current_primary = ""; primary_client = none; primary_conn = none }

-- A turn: the answer of GetView, whether the dial of the primary succeeds, and the answer of the
-- server at an address. None is an error of the call.
pub record Turn : Type 0 where
  pub view : Option View
  pub dialled : Bool
  pub answer : String → Option Response

unfoldable pub update_primary : Option View → Bool → Client → Client
update_primary none dialled ck = ck
update_primary (some view) dialled ck =
    if not (is_empty view.primary) && not (str_eq view.primary ck.current_primary)
    then (if dialled
        then record {
          current_primary = view.primary;
          primary_client = some view.primary;
          primary_conn = some view.primary;
        }
        else record ck { current_primary = "" })
    else ck

-- "Primary changed or failed, update and retry"
abbrev drop_conn : Option String → Client → Client
drop_conn none ck = ck
drop_conn (some conn) ck = record ck { primary_client = none; primary_conn = none }

abbrev pub drop_primary : Client → Client
drop_primary ck = drop_conn ck.primary_conn (record ck { current_primary = "" })

-- How a turn ends; `nil_client` is a call through a nil client, which panics.
pub data TurnEnd : Type 0 where
  return : String → Client → TurnEnd
  again : Client → TurnEnd
  nil_client : TurnEnd

unfoldable pub get_answer : Option Response → Client → TurnEnd
get_answer (some (done value)) ck = return value ck
get_answer (some err_no_key) ck = return "" ck
get_answer (some err_not_primary) ck = again (drop_primary ck)
get_answer none ck = again (drop_primary ck)

unfoldable pub put_answer : Option Response → Client → TurnEnd
put_answer (some (done value)) ck = return "" ck
put_answer (some err_no_key) ck = again ck
put_answer (some err_not_primary) ck = again (drop_primary ck)
put_answer none ck = again (drop_primary ck)

-- What the loops share, the reading of the answer apart.
abbrev pub Reading : Type 0
Reading = Option Response → Client → TurnEnd

abbrev pub call_primary : Reading → Option String → Turn → Client → TurnEnd
call_primary read none turn ck = nil_client
call_primary read (some addr) turn ck = read (turn.answer addr) ck

abbrev pub find_primary : Turn → Client → Client
find_primary turn ck =
    if is_empty ck.current_primary then update_primary turn.view turn.dialled ck else ck

unfoldable pub turn : Reading → Turn → Client → TurnEnd
turn read t ck =
    let ck' = find_primary t ck in
    if is_empty ck'.current_primary then again ck' else call_primary read ck'.primary_client t ck'

-- The loop, for as many turns as the list has; `again` is a client that has not returned yet.
unfoldable pub carry_on : (Client → TurnEnd) → TurnEnd → TurnEnd
carry_on rest (return value ck) = return value ck
carry_on rest (again ck) = rest ck
carry_on rest nil_client = nil_client

unfoldable pub loop : Reading → List Turn → Client → TurnEnd
unfolding carry_on
loop read [] ck = again ck
loop read (t ∷ turns) ck = carry_on (loop read turns) (turn read t ck)

unfoldable pub get : List Turn → Client → TurnEnd
get = loop get_answer

unfoldable pub put : List Turn → Client → TurnEnd
put = loop put_answer
