-- ===== src/MarketEvents/Catalogue/Chosen.antt =====
-- Which definition is chosen.
use ssh_arena.Prelude.{
  ◌≡◌, refl, sym, ap, ◌∙◌, subst, true, false, not, ◌⊎◌, inl, inr, Option, none, some, List, [],
  ◌∷◌, ◌++◌, if◌then◌else◌, if_true, if_false, Bool-cases, All,
}
use ssh_arena.Prelude.Float.{Float, ◌+F◌, ◌*F◌}
use ssh_arena.MarketEvents.{Definition}
use ssh_arena.MarketEvents.Catalogue.{
  Prepared, zero_F, at_most, total_from, roll_from, or_last, choose_definition,
}

module _ {F : Type 0} ⦃f : Float F⦄ where
  -- The definition is one of a list, with a positive chance.
  abbrev pub HasChance : List (Prepared F) → Definition → Type 0
  HasChance [] x = ⊥
  HasChance (d ∷ ds) x = ((d.definition ≡ x) × (f.less zero_F d.chance ≡ true)) ⊎ HasChance ds x

  -- A chance is positive or at most zero: it is a number.
  abbrev pub IsNumber : Prepared F → Type 0
  IsNumber d = at_most d.chance zero_F ≡ not (f.less zero_F d.chance)

  -- The running total of the positive chances stays below the roll.
  abbrev pub Missed : F → F → List (Prepared F) → Type 0
  Missed roll c [] = Unit
  Missed roll c (d ∷ ds) =
      (f.less zero_F d.chance ≡ true → at_most roll (total_from c (d ∷ [])) ≡ false)
      × Missed roll (total_from c (d ∷ [])) ds

  -- The definition is the first of a list with which the running total, from a sum on, reaches the
  -- roll.
  pub record IsDrawn (roll c : F) (ds : List (Prepared F)) (x : Definition) : Type 0 where
    pub before : List (Prepared F)
    pub drawn : Prepared F
    pub after : List (Prepared F)
    pub split : ds ≡ before ++ drawn ∷ after
    pub same : drawn.definition ≡ x
    pub chance : f.less zero_F drawn.chance ≡ true
    pub reached : at_most roll (total_from c (before ++ drawn ∷ [])) ≡ true
    pub missed : Missed roll c before

  HasChance-append :
      (before after : List (Prepared F)) (d : Prepared F)
      → f.less zero_F d.chance ≡ true
      → HasChance (before ++ d ∷ after) d.definition
  HasChance-append [] after d h = inl (refl, h)
  HasChance-append (b ∷ before) after d h = inr (HasChance-append before after d h)

  pub IsDrawn-HasChance :
      (roll c : F) (ds : List (Prepared F)) (x : Definition) → IsDrawn roll c ds x → HasChance ds x
  IsDrawn-HasChance roll c ds x h = subst (HasChance ds) h.same (
      subst (λ l. HasChance l (h.drawn).definition) (sym h.split)
        (HasChance-append h.before h.after h.drawn h.chance))

  -- The loop finds the definition that is drawn, or there was none to find.
  pub Found : F → F → List (Prepared F) → Option Definition → Type 0
  Found roll cumulative ds none = total_from cumulative ds ≡ cumulative
  Found roll cumulative ds (some x) = IsDrawn roll cumulative ds x

  total_from-positive :
      (c : F) (d : Prepared F) (ds : List (Prepared F))
      → f.less zero_F d.chance ≡ true
      → total_from c (d ∷ ds) ≡ total_from (c +F d.chance) ds
  unfolding total_from
  total_from-positive c d ds e = ap (λ b. total_from (if b then c +F d.chance else c) ds) e

  total_from-skipped :
      (c : F) (d : Prepared F) (ds : List (Prepared F))
      → f.less zero_F d.chance ≡ false
      → total_from c (d ∷ ds) ≡ total_from c ds
  unfolding total_from
  total_from-skipped c d ds e = ap (λ b. total_from (if b then c +F d.chance else c) ds) e

  Found-here :
      (roll c : F) (d : Prepared F) (ds : List (Prepared F))
      → f.less zero_F d.chance ≡ true
      → at_most roll (c +F d.chance) ≡ true
      → Found roll c (d ∷ ds) (some d.definition)
  unfolding Found total_from
  Found-here roll c d ds chance hit = record {
    before = [];
    drawn = d;
    after = ds;
    split = refl;
    same = refl;
    chance = chance;
    reached = ap (at_most roll) (total_from-positive c d [] chance) ∙ hit;
    missed = tt;
  }

  -- What is drawn behind a definition whose running total misses the roll.
  IsDrawn-later :
      (roll c next : F) (d : Prepared F) (ds : List (Prepared F)) (x : Definition)
      → total_from c (d ∷ []) ≡ next
      → (f.less zero_F d.chance ≡ true → at_most roll next ≡ false)
      → IsDrawn roll next ds x
      → IsDrawn roll c (d ∷ ds) x
  unfolding total_from
  IsDrawn-later roll c next d ds x total miss h = record {
    before = d ∷ h.before;
    drawn = h.drawn;
    after = h.after;
    split = ap (λ l. d ∷ l) h.split;
    same = h.same;
    chance = h.chance;
    reached =
        subst (λ t. at_most roll (total_from t (h.before ++ h.drawn ∷ [])) ≡ true) (sym total)
          h.reached;
    missed = (
      subst (λ t. f.less zero_F d.chance ≡ true → at_most roll t ≡ false) (sym total) miss,
      subst (λ t. Missed roll t h.before) (sym total) h.missed,
    );
  }

  Found-skipped :
      (roll c : F) (d : Prepared F) (ds : List (Prepared F)) (o : Option Definition)
      → f.less zero_F d.chance ≡ false
      → Found roll c ds o
      → Found roll c (d ∷ ds) o
  unfolding Found
  Found-skipped roll c d ds none skipped h = total_from-skipped c d ds skipped ∙ h
  Found-skipped roll c d ds (some x) skipped h =
      IsDrawn-later roll c c d ds x (unfold total_from in total_from-skipped c d [] skipped)
        (λ positive. cc (skipped, positive)) h

  -- Past a definition that the roll does not fall into, the loop finds another.
  Found-passed :
      (roll c : F) (d : Prepared F) (ds : List (Prepared F)) (o : Option Definition)
      → f.less zero_F d.chance ≡ true
      → at_most roll (c +F d.chance) ≡ false
      → at_most roll (total_from (c +F d.chance) ds) ≡ true
      → Found roll (c +F d.chance) ds o
      → Found roll c (d ∷ ds) o
  unfolding Found
  Found-passed roll c d ds none chance above below h = cc (ap (at_most roll) h, above, below)
  Found-passed roll c d ds (some x) chance above below h =
      IsDrawn-later roll c (c +F d.chance) d ds x
        (unfold total_from in total_from-positive c d [] chance) (λ positive. above) h

  roll_from-hit :
      (roll c : F) (d : Prepared F) (ds : List (Prepared F))
      → at_most d.chance zero_F ≡ false
      → at_most roll (c +F d.chance) ≡ true
      → roll_from roll c (d ∷ ds) ≡ some d.definition
  unfolding roll_from
  roll_from-hit roll c d ds counted hit =
      if_false {b = at_most d.chance zero_F} _ _ counted
      ∙ if_true {b = at_most roll (c +F d.chance)} _ _ hit

  roll_from-miss :
      (roll c : F) (d : Prepared F) (ds : List (Prepared F))
      → at_most d.chance zero_F ≡ false
      → at_most roll (c +F d.chance) ≡ false
      → roll_from roll c (d ∷ ds) ≡ roll_from roll (c +F d.chance) ds
  unfolding roll_from
  roll_from-miss roll c d ds counted miss =
      if_false {b = at_most d.chance zero_F} _ _ counted
      ∙ if_false {b = at_most roll (c +F d.chance)} _ _ miss

  roll_from-skip :
      (roll c : F) (d : Prepared F) (ds : List (Prepared F))
      → at_most d.chance zero_F ≡ true
      → roll_from roll c (d ∷ ds) ≡ roll_from roll c ds
  unfolding roll_from
  roll_from-skip roll c d ds skipped = if_true {b = at_most d.chance zero_F} _ _ skipped

  roll_from-Found :
      (roll c : F) (ds : List (Prepared F))
      → All IsNumber ds
      → at_most roll (total_from c ds) ≡ true
      → Found roll c ds (roll_from roll c ds)
  roll_from-Found roll c [] numbers below = unfold Found roll_from total_from in refl
  roll_from-Found roll c (d ∷ ds) numbers below = elim (Bool-cases (f.less zero_F d.chance)) [
    | inl chance ↦
        let next = c +F d.chance in
        let same = total_from-positive c d ds chance in
        let reached = ap (at_most roll) (sym same) ∙ below in
        let counted : at_most d.chance zero_F ≡ false = numbers.0 ∙ ap not chance in
        elim (Bool-cases (at_most roll next)) [
          | inl hit ↦
              subst (Found roll c (d ∷ ds)) (sym (roll_from-hit roll c d ds counted hit))
                (Found-here roll c d ds chance hit)
          | inr miss ↦
              subst (Found roll c (d ∷ ds)) (sym (roll_from-miss roll c d ds counted miss)) (
                Found-passed roll c d ds _ chance miss reached
                  (roll_from-Found roll next ds numbers.1 reached))
        ]
    | inr none_left ↦
        let same = total_from-skipped c d ds none_left in
        let skipped : at_most d.chance zero_F ≡ true = numbers.0 ∙ ap not none_left in
        subst (Found roll c (d ∷ ds)) (sym (roll_from-skip roll c d ds skipped)) (
          Found-skipped roll c d ds _ none_left
            (roll_from-Found roll c ds numbers.1 (ap (at_most roll) (sym same) ∙ below)))
  ]

  -- The answer of a choice by a roll: nothing, or the definition that is drawn.
  abbrev pub Choice : F → F → List (Prepared F) → Option Definition → Type 0
  Choice roll total ds none = at_most total zero_F ≡ true
  Choice roll total ds (some x) = (at_most total zero_F ≡ false) × IsDrawn roll zero_F ds x

  Choice-none :
      (roll total : F) (ds : List (Prepared F))
      → at_most total zero_F ≡ true
      → Choice roll total ds none
  Choice-none roll total ds h = h

  Found-Choice :
      (roll : F) (d : Prepared F) (ds : List (Prepared F)) (o : Option Definition)
      → at_most {F = F} zero_F zero_F ≡ true
      → at_most (total_from zero_F (d ∷ ds)) zero_F ≡ false
      → Found roll zero_F (d ∷ ds) o
      → Choice roll (total_from zero_F (d ∷ ds)) (d ∷ ds) (or_last d ds o)
  unfolding Found
  Found-Choice roll d ds none law total h = cc (ap (λ t. at_most t zero_F) h, law, total)
  Found-Choice roll d ds (some x) law total h = (total, h)

  -- Where every chance is a number, and a draw scales the total of the positive chances to no more
  -- than it is, the choice answers nothing exactly if that total is at most zero, and otherwise the
  -- first definition with which the running total of the positive chances reaches the roll, which is
  -- there to be found.
  pub choose_definition-Choice :
      (draw : F) (ds : List (Prepared F))
      → All IsNumber ds
      → at_most {F = F} zero_F zero_F ≡ true
      → at_most (draw *F total_from zero_F ds) (total_from zero_F ds) ≡ true
      → Choice (draw *F total_from zero_F ds) (total_from zero_F ds) ds (choose_definition draw ds)
  unfolding choose_definition
  choose_definition-Choice draw [] numbers law scaled = unfold total_from in law
  choose_definition-Choice draw (d ∷ ds) numbers law scaled =
      let total = total_from zero_F (d ∷ ds) in
      let roll = draw *F total in
      elim (Bool-cases (at_most total zero_F)) [
        | inl empty ↦
            subst (Choice roll total (d ∷ ds)) (sym (if_true {b = at_most total zero_F} _ _ empty))
              (Choice-none roll total (d ∷ ds) empty)
        | inr full ↦
            subst (Choice roll total (d ∷ ds)) (sym (if_false {b = at_most total zero_F} _ _ full))
              (Found-Choice roll d ds _ law full
                (roll_from-Found roll zero_F (d ∷ ds) numbers scaled))
      ]
