-- ===== src/Text/Fields.antt =====
-- Fields finds the words that were joined, whatever spaces stand around them.
use Prim.Native.Char.{Char}
use Prim.Native.String.{String, [], ◌∷◌, ◌++◌}
use text.Mathlib.TextLemmas.{nil-append, cons-append, append-nil, append_assoc}
use go_distributed_system_de.Base.{true, false, List, ◌≡◌, refl, sym, ap, ◌∙◌, Bool-cases, inl, inr}
use go_distributed_system_de.Text.{
  is_space, trim_left, trim_onto, trim_right, trim_space, end_word, fields_from, fields, join_from,
}

-- A text without spaces; a word is one that is not empty.
abbrev pub NoSpace : String → Type 0
NoSpace [] = Unit {0}
NoSpace (c ∷ s) = (is_space c ≡ false) × NoSpace s

abbrev pub IsWord : String → Type 0
IsWord [] = ⊥
IsWord (c ∷ s) = NoSpace (c ∷ s)

abbrev pub AllWords : List String → Type 0
AllWords List.[] = Unit {0}
AllWords (List.◌∷◌ w ws) = IsWord w × AllWords ws

fields_from_space :
    (c : Char) (s word : String)
    → is_space c ≡ true
    → fields_from word (c ∷ s) ≡ end_word word (fields s)
unfolding fields_from
fields_from_space c s word h = rw (h, fields_from) refl

fields_from_other :
    (c : Char) (s word : String)
    → is_space c ≡ false
    → fields_from word (c ∷ s) ≡ fields_from (word ++ c ∷ []) s
unfolding fields_from
fields_from_other c s word h = rw (h, fields_from) refl

fields_from-NoSpace :
    (s word rest : String) → NoSpace s → fields_from word (s ++ rest) ≡ fields_from (word ++ s) rest
fields_from-NoSpace [] word rest h = rw (nil-append rest, append-nil word) refl
fields_from-NoSpace (c ∷ s) word rest (h, k) =
    ap (fields_from word) (cons-append c s rest)
    ∙ fields_from_other c (s ++ rest) word h
    ∙ fields_from-NoSpace s (word ++ c ∷ []) rest k
    ∙ ap (λ w. fields_from w rest)
        (append_assoc word (c ∷ []) s
          ∙ ap (λ t. word ++ t) (cons-append c [] s ∙ ap (◌∷◌ c) (nil-append s)))

end_word-IsWord :
    (w : String) (words : List String) → IsWord w → end_word w words ≡ List.◌∷◌ w words
unfolding end_word
end_word-IsWord [] words h = absurd h
end_word-IsWord (c ∷ s) words h = refl

no_space : (w : String) → IsWord w → NoSpace w
no_space [] h = tt
no_space (c ∷ s) h = h

fields_space : (w s : String) → IsWord w → fields_from [] (w ++ " " ++ s) ≡ List.◌∷◌ w (fields s)
unfolding fields_from is_space
fields_space w s h =
    fields_from-NoSpace w [] (" " ++ s) (no_space w h)
    ∙ rw (nil-append w, cons-append _ [] s, nil-append s) (end_word-IsWord w (fields s) h)

-- Words without spaces, joined by single spaces, are found again.
pub fields-join_from :
    (w : String) (ws : List String)
    → IsWord w
    → AllWords ws
    → fields (join_from w ws) ≡ List.◌∷◌ w ws
unfolding fields_from join_from
fields-join_from w List.[] h k =
    ap fields (sym (append-nil w))
    ∙ fields_from-NoSpace w [] [] (no_space w h)
    ∙ ap (λ v. fields_from v []) (nil-append w)
    ∙ end_word-IsWord w List.[] h
fields-join_from w (List.◌∷◌ v ws) h (k, l) =
    fields_space w (join_from v ws) h ∙ ap (List.◌∷◌ w) (fields-join_from v ws k l)

fields-trim_left : (s : String) → fields (trim_left s) ≡ fields s
unfolding trim_left fields_from end_word
fields-trim_left [] = refl
fields-trim_left (c ∷ s) = elim (Bool-cases (is_space c)) [
  | inl e ↦ rw (e, trim_left) (fields-trim_left s ∙ sym (fields_from_space c s [] e))
  | inr e ↦ rw (e, trim_left) refl
]

fields_from-trim_onto :
    (c : Char) (r word : String) → fields_from word (trim_onto c r) ≡ fields_from word (c ∷ r)
unfolding trim_onto fields_from end_word
fields_from-trim_onto c [] word = elim (Bool-cases (is_space c)) [
  | inl e ↦ rw (e, trim_onto) (sym (fields_from_space c [] word e))
  | inr e ↦ rw (e, trim_onto) refl
]
fields_from-trim_onto c (d ∷ r) word = refl

fields_from-trim_right : (s word : String) → fields_from word (trim_right s) ≡ fields_from word s
unfolding trim_right fields_from
fields_from-trim_right [] word = refl
fields_from-trim_right (c ∷ s) word =
    fields_from-trim_onto c (trim_right s) word ∙ elim (Bool-cases (is_space c)) [
      | inl e ↦
          fields_from_space c (trim_right s) word e
          ∙ ap (end_word word) (fields_from-trim_right s [])
          ∙ sym (fields_from_space c s word e)
      | inr e ↦
          fields_from_other c (trim_right s) word e
          ∙ fields_from-trim_right s (word ++ c ∷ [])
          ∙ sym (fields_from_other c s word e)
    ]

-- Spaces at the ends make no difference to the words.
pub fields-trim_space : (s : String) → fields (trim_space s) ≡ fields s
unfolding trim_space
fields-trim_space s = fields_from-trim_right (trim_left s) [] ∙ fields-trim_left s
