-- ===== src/Programs/Lines.antt =====
-- What the client program makes of a line or of its flags (multipaxos_kvstore/client/client.go).
use go_distributed_system_de.Base.{
  String, List, [], ◌∷◌, str_eq, str_eq_iff, ◌≡◌, inl, inr, refl, sym, ap, ◌∙◌, Bool-cases,
}
use go_distributed_system_de.Text.{trim_space, fields, fields_from, end_word, join, to_lower}
use go_distributed_system_de.Text.Fields.{IsWord, AllWords, fields-join_from, fields-trim_space}
use go_distributed_system_de.KvClient.{KvClient, End, put_key, get_key, delete_key}
use go_distributed_system_de.Programs.Shell.{
  after_call, put_line, get_line, delete_line, run_command, run_words, run_line,
}

-- A line is its words: the spaces before, between and after them are not looked at.
run_line-fields :
    {W : Type 0} (c : KvClient W) (text : String) (w : W)
    → run_line c text w ≡ run_words c (fields text) w
unfolding run_line run_words fields_from end_word
run_line-fields c text w = elim (Bool-cases (str_eq (trim_space text) "")) [
  | inl e ↦
      let none_left : fields text ≡ [] =
        sym (fields-trim_space text) ∙ ap fields ((str_eq_iff (trim_space text) "").0 e) in
      rw (e, none_left) refl
  | inr e ↦ rw (e, fields-trim_space text) refl
]

run_line-join :
    {W : Type 0} (c : KvClient W) (text word : String) (words : List String) (w : W)
    → trim_space text ≡ join (word ∷ words)
    → IsWord word
    → AllWords words
    → run_line c text w ≡ run_command c (to_lower word) words w
unfolding run_words
run_line-join c text word words w e h k =
    run_line-fields c text w
    ∙ ap (λ ws. run_words c ws w)
        (sym (fields-trim_space text) ∙ ap fields e ∙ fields-join_from word words h k)

-- What a user can ask of the store.
pub data Ask : Type 0 where
  asks_put : String → String → List String → Ask
  asks_get asks_delete : String → Ask

-- How it is typed, and what the client library is asked.
abbrev pub command : Ask → String
command (asks_put key value more) = "put"
command (asks_get key) = "get"
command (asks_delete key) = "delete"

abbrev pub args : Ask → List String
args (asks_put key value more) = key ∷ value ∷ more
args (asks_get key) = key ∷ []
args (asks_delete key) = key ∷ []

abbrev pub sent : {W : Type 0} → KvClient W → Ask → W → End × W
sent c (asks_put key value more) = put_key c key (join (value ∷ more))
sent c (asks_get key) = get_key c key
sent c (asks_delete key) = delete_key c key

-- What is typed at the prompt is what the store is asked: when the line, without the spaces at its
-- ends, is a command and its arguments joined by single spaces, the client library is called with
-- exactly these arguments, the remaining words of a put being its value with the spaces
-- between them; an error is printed and the prompt comes again. The command may be in capitals; no
-- word is empty or holds a space.
pub run_line-join_sends :
    {W : Type 0} (c : KvClient W) (ask : Ask) (text word : String) (w : W)
    → to_lower word ≡ command ask
    → trim_space text ≡ join (word ∷ args ask)
    → AllWords (word ∷ args ask)
    → run_line c text w ≡ after_call (sent c ask w)
unfolding run_command put_line get_line delete_line
run_line-join_sends c (asks_put key value more) text word w m e (h, k) =
    run_line-join c text word (key ∷ value ∷ more) w e h k ∙ rw m refl
run_line-join_sends c (asks_get key) text word w m e (h, k) =
    run_line-join c text word (key ∷ []) w e h k ∙ rw m refl
run_line-join_sends c (asks_delete key) text word w m e (h, k) =
    run_line-join c text word (key ∷ []) w e h k ∙ rw m refl
