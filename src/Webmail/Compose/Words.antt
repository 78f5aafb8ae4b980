-- ===== src/Webmail/Compose/Words.antt =====
-- internal/webmail/compose_handlers.go: the identifiers in References.
use mailroom.Prelude.{
  All, All-append, Bool-cases, List, Text, [], false, inl, inr, is_space, ◌++◌, ◌∷◌, ◌≡◌, ◌≢◌,
}
use mailroom.Webmail.Compose.Sending.{add_word, fields, fields_from}

-- A word is not empty and has no space.
abbrev pub IsWord : Text → Type 0
IsWord w = (w ≢ []) × All (λ c. is_space c ≡ false) w

add_word-IsWord :
    (word : Text) (rest : List Text)
    → All (λ c. is_space c ≡ false) word
    → All IsWord rest
    → All IsWord (add_word word rest)
add_word-IsWord [] rest w h = h
add_word-IsWord (c ∷ word) rest w h = (((λ e. cc e), w), h)

fields_from-IsWord :
    (word s : Text) → All (λ c. is_space c ≡ false) word → All IsWord (fields_from word s)
unfolding fields_from
fields_from-IsWord word [] w = add_word-IsWord word [] w tt
fields_from-IsWord word (c ∷ s) w = elim (Bool-cases (is_space c)) [
  | inl space ↦
      rw (fields_from, space)
        (add_word-IsWord word (fields_from [] s) w (fields_from-IsWord [] s tt))
  | inr letter ↦
      rw (fields_from, letter)
        (fields_from-IsWord (word ++ c ∷ []) s
          (All-append (λ x. is_space x ≡ false) word (c ∷ []) w (letter, tt)))
]

-- Every identifier that is written to References is a word, whatever the form holds, so that none has a
-- line break.
fields-IsWord : (s : Text) → All IsWord (fields s)
unfolding fields
fields-IsWord s = fields_from-IsWord [] s tt
