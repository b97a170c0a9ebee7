-- ===== src/Prelude/Runes/Words.antt =====
-- Words: what splitting a text at white space gives.
use ssh_arena.Prelude.{
  ℕ, ◌≡◌, refl, sym, ap, ◌∙◌, subst, append-nil, true, false, ◌&&◌, List, [], ◌∷◌, ◌++◌,
  if◌then◌else◌, if_true, if_false, if_cases, if_either, All, Bool-cases, inl, inr, arith,
}
use ssh_arena.Prelude.Runes.{
  is_space, is_nil, trim_left, trim_right, trim_space, grow, next_is_space, fields, join_words,
}

-- A word is not empty and has no white space in it.
abbrev pub IsWord : List ℕ → Type 0
IsWord w = (is_nil w ≡ false) × All (λ c. is_space c ≡ false) w

pub fields-trim_left : (cs : List ℕ) → fields (trim_left cs) ≡ fields cs
unfolding trim_left fields
fields-trim_left [] = refl
fields-trim_left (c ∷ cs) = elim (Bool-cases (is_space c)) [
  | inl blank ↦
      ap fields (if_true {b = is_space c} _ _ blank)
      ∙ fields-trim_left cs
      ∙ sym (if_true {b = is_space c} _ _ blank)
  | inr dark ↦ ap fields (if_false {b = is_space c} _ _ dark)
]

-- Where a trimmed text is empty, the text has no word.
trim_right_nil :
    (cs : List ℕ) → is_nil (trim_right cs) ≡ true → (fields cs ≡ []) × (next_is_space cs ≡ true)
unfolding trim_right fields
trim_right_nil [] h = (refl, refl)
trim_right_nil (c ∷ cs) h = elim (Bool-cases (is_nil (trim_right cs) && is_space c)) [
  | inl blank ↦
      let e : is_nil (trim_right cs) ≡ true = ground (arith, blank) in
      let b : is_space c ≡ true = ground (arith, blank) in
      (if_true {b = is_space c} _ _ b ∙ (trim_right_nil cs e).0, b)
  | inr dark ↦ cc (
    ap is_nil (if_false {b = is_nil (trim_right cs) && is_space c} [] (c ∷ trim_right cs) dark),
    h,
  )
]

next_is_space-trim_right : (cs : List ℕ) → next_is_space (trim_right cs) ≡ next_is_space cs
unfolding trim_right
next_is_space-trim_right [] = refl
next_is_space-trim_right (c ∷ cs) = ground arith

abbrev first_word : ℕ → List ℕ → List (List ℕ) → List (List ℕ)
first_word c cs r = if is_space c then r else if next_is_space cs then (c ∷ []) ∷ r else grow c r

pub fields-trim_right : (cs : List ℕ) → fields (trim_right cs) ≡ fields cs
unfolding trim_right fields
fields-trim_right [] = refl
fields-trim_right (c ∷ cs) = elim (Bool-cases (is_nil (trim_right cs) && is_space c)) [
  | inl blank ↦
      let e : is_nil (trim_right cs) ≡ true = ground (arith, blank) in
      let b : is_space c ≡ true = ground (arith, blank) in
      ap fields (if_true {b = is_nil (trim_right cs) && is_space c} _ _ blank)
      ∙ sym (if_true {b = is_space c} _ _ b ∙ (trim_right_nil cs e).0)
  | inr dark ↦
      ap fields (if_false {b = is_nil (trim_right cs) && is_space c} _ _ dark)
      ∙ ap (first_word c (trim_right cs)) (fields-trim_right cs)
      ∙ ap
          (λ b.
            if is_space c
            then fields cs
            else if b
            then (c ∷ []) ∷ fields cs
            else grow c (fields cs))
          (next_is_space-trim_right cs)
]

-- Trimming leaves the words as they are.
pub fields-trim_space : (cs : List ℕ) → fields (trim_space cs) ≡ fields cs
unfolding trim_space
fields-trim_space cs = fields-trim_right (trim_left cs) ∙ fields-trim_left cs

grow-IsWord :
    (c : ℕ) (ws : List (List ℕ)) → is_space c ≡ false → All IsWord ws → All IsWord (grow c ws)
grow-IsWord c [] dark h = ((refl, (dark, tt)), tt)
grow-IsWord c (w ∷ ws) dark h = ((refl, (dark, h.0.1)), h.1)

pub fields-IsWord : (cs : List ℕ) → All IsWord (fields cs)
unfolding fields
fields-IsWord [] = tt
fields-IsWord (c ∷ cs) =
    if_cases (All IsWord) (is_space c) _ _ (λ blank. fields-IsWord cs)
      (λ dark.
        if_either (All IsWord) (next_is_space cs) _ _ ((refl, (dark, tt)), fields-IsWord cs)
          (grow-IsWord c (fields cs) dark (fields-IsWord cs)))

-- A word in front of a space is the first word.
pub fields-word : (w rest : List ℕ) → IsWord w → fields (w ++ 32 ∷ rest) ≡ w ∷ fields rest
unfolding fields
fields-word [] rest h = cc (h.0)
fields-word (c ∷ []) rest h = rw (h.1.0)
fields-word (c ∷ d ∷ w) rest h =
    if_false {b = is_space c} _ _ (h.1.0)
    ∙ if_false {b = is_space d} _ _ (h.1.1.0)
    ∙ ap (grow c) (fields-word (d ∷ w) rest (refl, h.1.1))

trim_right-dark :
    (c : ℕ) (cs : List ℕ) → is_space c ≡ false → trim_right (c ∷ cs) ≡ c ∷ trim_right cs
unfolding trim_right
trim_right-dark c cs dark = ground (arith, dark)

trim_right-full :
    (c : ℕ) (cs : List ℕ) → is_nil (trim_right cs) ≡ false → trim_right (c ∷ cs) ≡ c ∷ trim_right cs
unfolding trim_right
trim_right-full c cs full = ground (arith, full)

trim_right-word :
    (w ys : List ℕ) → All (λ c. is_space c ≡ false) w → trim_right (w ++ ys) ≡ w ++ trim_right ys
trim_right-word [] ys h = refl
trim_right-word (c ∷ w) ys h =
    trim_right-dark c (w ++ ys) h.0 ∙ ap (◌∷◌ c) (trim_right-word w ys h.1)

-- A text that starts with a code point other than white space.
StartsDark : List ℕ → Type 0
StartsDark [] = ⊥
StartsDark (c ∷ cs) = is_space c ≡ false

StartsDark-word : (w rest : List ℕ) → IsWord w → StartsDark (w ++ rest)
unfolding StartsDark
StartsDark-word [] rest h = cc (h.0)
StartsDark-word (c ∷ w) rest h = h.1.0

StartsDark-ne-nil : (cs : List ℕ) → StartsDark cs → is_nil cs ≡ false
unfolding StartsDark
StartsDark-ne-nil [] h = absurd h
StartsDark-ne-nil (c ∷ cs) h = refl

trim_left-dark : (cs : List ℕ) → StartsDark cs → trim_left cs ≡ cs
unfolding StartsDark trim_left
trim_left-dark [] h = absurd h
trim_left-dark (c ∷ cs) h = if_false {b = is_space c} _ _ h

trim_right-join_words :
    (w : List ℕ) (ws : List (List ℕ))
    → All IsWord (w ∷ ws)
    → (trim_right (join_words (w ∷ ws)) ≡ join_words (w ∷ ws)) × StartsDark (join_words (w ∷ ws))
unfolding join_words
trim_right-join_words w [] h = (
  subst (λ v. trim_right v ≡ v) (append-nil w)
      (trim_right-word w [] h.0.1 ∙ ap (λ v. w ++ v) (unfold trim_right in refl)),
  subst StartsDark (append-nil w) (StartsDark-word w [] h.0),
)
trim_right-join_words w (v ∷ vs) h =
    let (same, dark) = trim_right-join_words v vs h.1 in
    let tail = join_words (v ∷ vs) in
    let full : is_nil (trim_right tail) ≡ false = ap is_nil same ∙ StartsDark-ne-nil tail dark in
    (
      trim_right-word w (32 ∷ tail) h.0.1
          ∙ ap (λ t. w ++ t) (trim_right-full 32 tail full ∙ ap (◌∷◌ 32) same),
      StartsDark-word w (32 ∷ tail) h.0,
    )

-- Words that are joined have no white space around them, and are not empty.
pub trim_space-join_words :
    (w : List ℕ) (ws : List (List ℕ))
    → All IsWord (w ∷ ws)
    → (trim_space (join_words (w ∷ ws)) ≡ join_words (w ∷ ws))
      × (is_nil (join_words (w ∷ ws)) ≡ false)
unfolding trim_space
trim_space-join_words w ws h =
    let (same, dark) = trim_right-join_words w ws h in
    (
      ap trim_right (trim_left-dark (join_words (w ∷ ws)) dark) ∙ same,
      StartsDark-ne-nil (join_words (w ∷ ws)) dark,
    )
