-- ===== src/ViewClient/Tests.antt =====
-- Small loops of the client (client_main/client/client_func.go).
use go_distributed_system_de.Base.{
  String, true, false, [], ◌∷◌, ◌++◌, none, some, ◌≢◌, refl, str_eq, if◌then◌else◌, arith,
}
use go_distributed_system_de.Views.{View}
use go_distributed_system_de.Replica.{done, err_no_key, err_not_primary}
use go_distributed_system_de.ViewClient.{Client, Turn, get}
use go_distributed_system_de.ViewClient.Returns.{Good, HasReturned, get_returns}

abbrev view : View
view = record { view_number = 1; primary = "a"; backup = "" }

abbrev lost : Turn
lost = record { view = none; dialled = false; answer = λ addr. none }

abbrev good : Turn
good = record {
  view = some view;
  dialled = true;
  answer = λ addr. if str_eq addr "a" then some (done "v") else some err_not_primary;
}

good-Good : Good good
good-Good = record {
  named = view;
  seen = refl;
  someone = refl;
  reached = refl;
  value = "v";
  served = refl;
}

-- It is connected to a server that is not primary any more.
abbrev client : Client
client = record { current_primary = "b"; primary_client = some "b"; primary_conn = some "b" }

get_returns_example : HasReturned (get ((lost ∷ []) ++ good ∷ good ∷ []) client)
get_returns_example = get_returns (lost ∷ []) [] good good client good-Good good-Good (λ h. refl)

good_answers : (addr : String) → good.answer addr ≢ some err_no_key
good_answers addr h = ground arith
