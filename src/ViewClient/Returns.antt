-- ===== src/ViewClient/Returns.antt =====
-- The loops of `Get` and `Put` return (client_main/client/client_func.go).
use go_distributed_system_de.Base.{
  String, true, false, not, ◌&&◌, List, [], ◌∷◌, ◌++◌, Option, none, some, ◌≡◌, ◌≢◌, refl, inl, inr,
  arith, str_eq, str_eq_iff, Bool-cases,
}
use go_distributed_system_de.Views.{View, is_empty}
use go_distributed_system_de.Replica.{Response, done, err_not_primary, err_no_key}
use go_distributed_system_de.ViewClient.{
  Client, Turn, update_primary, drop_conn, TurnEnd, return, again, nil_client, get_answer,
  put_answer, Reading, call_primary, turn, carry_on, loop, get, put,
}
use go_distributed_system_de.ViewClient.Turns.{
  Connected, Sound, KeepsSound, turn-Sound, get_answer-Sound, put_answer-Sound, empty_is_empty,
}

abbrev pub HasReturned : TurnEnd → Type 0
HasReturned (return value ck) = Unit
HasReturned (again ck) = ⊥
HasReturned nil_client = ⊥

-- A turn in which the view service names a primary that can be dialled and does what it is asked.
pub record Good (t : Turn) : Type 0 where
  pub named : View
  pub seen : t.view ≡ some named
  pub someone : is_empty named.primary ≡ false
  pub reached : t.dialled ≡ true
  pub value : String
  pub served : t.answer named.primary ≡ some (done value)

-- The primary that the view names, once a client without a primary has asked for it.
redialled : View → Client
redialled view = record {
  current_primary = view.primary;
  primary_client = some view.primary;
  primary_conn = some view.primary;
}

update_primary_named :
    (view : View) (ck : Client)
    → is_empty ck.current_primary ≡ true
    → is_empty view.primary ≡ false
    → update_primary (some view) true ck ≡ redialled view
unfolding update_primary redialled
update_primary_named view ck e n =
    let t : (not (is_empty view.primary) && not (str_eq view.primary ck.current_primary)) ≡ true =
      ground (
        arith,
        str_eq_iff view.primary ck.current_primary,
        str_eq_iff ck.current_primary "",
        str_eq_iff view.primary "",
      ) in
    rw t refl

-- A reading takes a success for the end, and what an address answers for the end or for a reason to
-- drop the primary.
abbrev Ends : Reading → Type 0
Ends read = (value : String) (ck : Client) → HasReturned (read (some (done value)) ck)

abbrev EndsOrDrops : TurnEnd → Type 0
EndsOrDrops (return value ck) = Unit
EndsOrDrops (again ck) = is_empty ck.current_primary ≡ true
EndsOrDrops nil_client = ⊥

abbrev Settles : Reading → Turn → Type 0
Settles read t = (addr : String) (ck : Client) → EndsOrDrops (read (t.answer addr) ck)

turn-Good :
    (read : Reading) (t : Turn) (ck : Client)
    → Ends read
    → Good t
    → is_empty ck.current_primary ≡ true
    → HasReturned (turn read t ck)
unfolding turn redialled
turn-Good read t ck ends g e =
    rw (e, g.seen, g.reached, update_primary_named g.named ck e g.someone, g.someone, g.served)
      (ends g.value (redialled g.named))

returned-EndsOrDrops : (end : TurnEnd) → HasReturned end → EndsOrDrops end
returned-EndsOrDrops (return value ck) h = h
returned-EndsOrDrops (again ck) h = elim h [ ]
returned-EndsOrDrops nil_client h = elim h [ ]

call_primary_at :
    (read : Reading) (client : Option String) (t : Turn) (ck : Client) (name : String)
    → client ≡ some name
    → call_primary read client t ck ≡ read (t.answer name) ck
call_primary_at read client t ck name e = rw e refl

turn_connected :
    (read : Reading) (t : Turn) (ck : Client)
    → is_empty ck.current_primary ≡ false
    → ck.primary_client ≡ some ck.current_primary
    → turn read t ck ≡ read (t.answer ck.current_primary) ck
unfolding turn
turn_connected read t ck e c =
    rw e (rw e (call_primary_at read ck.primary_client t ck ck.current_primary c))

settled_turn :
    (read : Reading) (t : Turn) (ck : Client)
    → Ends read
    → Settles read t
    → Good t
    → Connected ck
    → EndsOrDrops (turn read t ck)
settled_turn read t ck ends settles g c = elim (Bool-cases (is_empty ck.current_primary)) [
  | inl e ↦ returned-EndsOrDrops (turn read t ck) (turn-Good read t ck ends g e)
  | inr e ↦ rw (turn_connected read t ck e (c e)) (settles ck.current_primary ck)
]

carry_on-HasReturned :
    (rest : Client → TurnEnd) (end : TurnEnd)
    → ((ck : Client) → is_empty ck.current_primary ≡ true → HasReturned (rest ck))
    → EndsOrDrops end
    → HasReturned (carry_on rest end)
unfolding carry_on
carry_on-HasReturned rest (return value ck) f h = h
carry_on-HasReturned rest (again ck) f h = f ck h
carry_on-HasReturned rest nil_client f h = elim h [ ]

carry_on-returned :
    (rest : Client → TurnEnd) (end : TurnEnd) → HasReturned end → HasReturned (carry_on rest end)
unfolding carry_on
carry_on-returned rest (return value ck) h = h
carry_on-returned rest (again ck) h = elim h [ ]
carry_on-returned rest nil_client h = elim h [ ]

carry_on-Sound_returned :
    (rest : Client → TurnEnd) (end : TurnEnd)
    → ((ck : Client) → Connected ck → HasReturned (rest ck))
    → Sound end
    → HasReturned (carry_on rest end)
unfolding carry_on
carry_on-Sound_returned rest (return value ck) f h = tt
carry_on-Sound_returned rest (again ck) f h = f ck h
carry_on-Sound_returned rest nil_client f h = elim h [ ]

loop_returns :
    (read : Reading) (before after : List Turn) (t u : Turn) (ck : Client)
    → KeepsSound read
    → Ends read
    → Settles read t
    → Good t
    → Good u
    → Connected ck
    → HasReturned (loop read (before ++ t ∷ u ∷ after) ck)
unfolding loop
loop_returns read [] after t u ck keeps ends settles g g' c =
    carry_on-HasReturned (loop read (u ∷ after)) (turn read t ck)
      (λ ck' e.
        carry_on-returned (loop read after) (turn read u ck') (turn-Good read u ck' ends g' e))
      (settled_turn read t ck ends settles g c)
loop_returns read (s ∷ before) after t u ck keeps ends settles g g' c =
    carry_on-Sound_returned (loop read (before ++ t ∷ u ∷ after)) (turn read s ck)
      (λ ck' c'. loop_returns read before after t u ck' keeps ends settles g g' c')
      (turn-Sound read keeps s ck c)

drop_conn-empty :
    (conn : Option String) (ck : Client)
    → is_empty ck.current_primary ≡ true
    → is_empty (drop_conn conn ck).current_primary ≡ true
drop_conn-empty none ck e = e
drop_conn-empty (some conn) ck e = e

get_settles : (answer : Option Response) (ck : Client) → EndsOrDrops (get_answer answer ck)
unfolding get_answer
get_settles (some (done value)) ck = tt
get_settles (some err_no_key) ck = tt
get_settles (some err_not_primary) ck =
    drop_conn-empty ck.primary_conn (record ck { current_primary = "" }) empty_is_empty
get_settles none ck =
    drop_conn-empty ck.primary_conn (record ck { current_primary = "" }) empty_is_empty

put_settles :
    (answer : Option Response) (ck : Client)
    → answer ≢ some err_no_key
    → EndsOrDrops (put_answer answer ck)
unfolding put_answer
put_settles (some (done value)) ck n = tt
put_settles (some err_no_key) ck n = elim (n refl) [ ]
put_settles (some err_not_primary) ck n =
    drop_conn-empty ck.primary_conn (record ck { current_primary = "" }) empty_is_empty
put_settles none ck n =
    drop_conn-empty ck.primary_conn (record ck { current_primary = "" }) empty_is_empty

get-Ends : Ends get_answer
unfolding get_answer
get-Ends value ck = tt

put-Ends : Ends put_answer
unfolding put_answer
put-Ends value ck = tt

-- A Get returns at the latest when, after any turns, there are two in a row in which the view service
-- names a primary that can be dialled and that serves the request: the first may go to a primary that
-- the client knows from before.
pub get_returns :
    (before after : List Turn) (t u : Turn) (ck : Client)
    → Good t
    → Good u
    → Connected ck
    → HasReturned (get (before ++ t ∷ u ∷ after) ck)
unfolding get
get_returns before after t u ck g g' c =
    loop_returns get_answer before after t u ck get_answer-Sound get-Ends
      (λ addr ck'. get_settles (t.answer addr) ck') g g' c

-- A Put returns at the latest when, after any turns, there are two in a row in which the view service
-- names a primary that can be dialled and that serves the request, if in the first of them no server
-- answers that there is no such key, which none does for a Put.
pub put_returns :
    (before after : List Turn) (t u : Turn) (ck : Client)
    → Good t
    → Good u
    → Connected ck
    → ((addr : String) → t.answer addr ≢ some err_no_key)
    → HasReturned (put (before ++ t ∷ u ∷ after) ck)
unfolding put
put_returns before after t u ck g g' c n =
    loop_returns put_answer before after t u ck put_answer-Sound put-Ends
      (λ addr ck'. put_settles (t.answer addr) ck' (n addr)) g g' c
