-- ===== src/Gameplay/Trades/Cash.antt =====
-- Who pays what when a trade is settled.
use ssh_arena.Prelude.{
  ◌≡◌, refl, sym, ap, ◌∙◌, String, Bool, true, false, Option, none, some, List, [], ◌∷◌,
  if◌then◌else◌, if_true, if_false, if_either, Bool-cases, inl, inr, arith,
}
use ssh_arena.Prelude.Int.{ℤ}
use ssh_arena.Prelude.Text.{str_eq, eq_iff}
use ssh_arena.State.Player.{Player}
use ssh_arena.Gameplay.Desk.{lookup, change}

-- The cash of a player whom the action has touched.
pub cash_of : String → List (String × Player) → Option ℤ
cash_of who ps = elim (lookup who ps) [ none ↦ none | some p ↦ some p.cash ]

-- A change of one player's cash.
pub at_player : String → (ℤ → ℤ) → String → Option ℤ → Option ℤ
at_player k g who none = none
at_player k g who (some c) = some (if str_eq k who then g c else c)

module _ (j : String) (p : Player) (ps : List (String × Player)) where
  cash_head : (who : String) → str_eq j who ≡ true → cash_of who ((j, p) ∷ ps) ≡ some p.cash
  unfolding cash_of lookup
  cash_head who w = rw (cash_of, w)

  cash_tail : (who : String) → str_eq j who ≡ false → cash_of who ((j, p) ∷ ps) ≡ cash_of who ps
  unfolding cash_of lookup
  cash_tail who w = rw (cash_of, w)

  change_head :
      (k : String) (f : Player → Player)
      → str_eq j k ≡ true
      → change k f ((j, p) ∷ ps) ≡ (j, f p) ∷ ps
  unfolding change
  change_head k f e = if_true _ _ e

  change_tail :
      (k : String) (f : Player → Player)
      → str_eq j k ≡ false
      → change k f ((j, p) ∷ ps) ≡ (j, p) ∷ change k f ps
  unfolding change
  change_tail k f e = if_false _ _ e

at_player_other :
    (k : String) (g : ℤ → ℤ) (who : String) (o : Option ℤ)
    → str_eq k who ≡ false
    → at_player k g who o ≡ o
unfolding at_player
at_player_other k g who none d = refl
at_player_other k g who (some c) d = ap (λ x. some x) (if_false _ _ d)

at_player_self :
    (k : String) (g : ℤ → ℤ) (who : String) (c : ℤ)
    → str_eq k who ≡ true
    → at_player k g who (some c) ≡ some (g c)
unfolding at_player
at_player_self k g who c d = ap (λ x. some x) (if_true _ _ d)

str_eq_transfer :
    (j k who : String) (b : Bool) → str_eq j k ≡ true → str_eq j who ≡ b → str_eq k who ≡ b
str_eq_transfer j k who b e w = ap (λ x. str_eq x who) (sym (ground (arith, eq_iff j k, e))) ∙ w

str_eq_apart : (j k who : String) → str_eq j k ≡ false → str_eq j who ≡ true → str_eq k who ≡ false
str_eq_apart j k who e w = ground (arith, eq_iff j k, eq_iff j who, eq_iff k who, e, w)

pub cash_of-change :
    (k : String) (f : Player → Player) (g : ℤ → ℤ) (who : String) (ps : List (String × Player))
    → ((p : Player) → (f p).cash ≡ g p.cash)
    → cash_of who (change k f ps) ≡ at_player k g who (cash_of who ps)
cash_of-change k f g who [] h = unfold cash_of at_player lookup change in refl
cash_of-change k f g who ((j, p) ∷ ps) h = elim (Bool-cases (str_eq j k)) [
  | inl e ↦ ap (cash_of who) (change_head j p ps k f e) ∙ elim (Bool-cases (str_eq j who)) [
    | inl w ↦
        cash_head j (f p) ps who w
        ∙ ap (λ x. some x) (h p)
        ∙ sym (at_player_self k g who p.cash (str_eq_transfer j k who true e w))
        ∙ sym (ap (at_player k g who) (cash_head j p ps who w))
    | inr w ↦
        cash_tail j (f p) ps who w
        ∙ sym (cash_tail j p ps who w)
        ∙ sym (at_player_other k g who _ (str_eq_transfer j k who false e w))
  ]
  | inr e ↦ ap (cash_of who) (change_tail j p ps k f e) ∙ elim (Bool-cases (str_eq j who)) [
    | inl w ↦
        cash_head j p (change k f ps) who w
        ∙ sym (cash_head j p ps who w)
        ∙ sym (at_player_other k g who _ (str_eq_apart j k who e w))
    | inr w ↦
        cash_tail j p (change k f ps) who w
        ∙ cash_of-change k f g who ps h
        ∙ sym (ap (at_player k g who) (cash_tail j p ps who w))
  ]
]

at_player_same : (k who : String) (o : Option ℤ) → at_player k (λ c. c) who o ≡ o
unfolding at_player
at_player_same k who none = refl
at_player_same k who (some c) =
    ap (λ x. some x) (if_either (λ x. x ≡ c) (str_eq k who) c c refl refl)

-- A change that leaves the cash alone.
pub cash_of-change_same :
    (k : String) (f : Player → Player) (who : String) (ps : List (String × Player))
    → ((p : Player) → (f p).cash ≡ p.cash)
    → cash_of who (change k f ps) ≡ cash_of who ps
cash_of-change_same k f who ps h =
    cash_of-change k f (λ c. c) who ps h ∙ at_player_same k who (cash_of who ps)
