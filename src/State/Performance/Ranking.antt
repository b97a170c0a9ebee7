-- ===== src/State/Performance/Ranking.antt =====
-- The leaderboard is sorted, ranked and cut to its limit.
use ssh_arena.Prelude.{
  ℕ, suc, ◌≤◌, ◌≡◌, refl, ap, Bool, true, false, List, [], ◌∷◌, if_either, if_cases, length,
  length-take, take, arith,
}
use mathlib.Core.List.{Perm}
use mathlib.Core.List.Perm
use ssh_arena.Prelude.Float.{Float, IsFloat}
use ssh_arena.State.TradeStore.{TradeRecord}
use ssh_arena.State.Performance.{
  LeaderboardEntry, PerformanceStore, number_from, insert_by, sort_by, outranks, limit_of,
  candidates, leaderboard,
}

module _ {ℓ} {A : Type ℓ} (before : A → A → Bool) where
  -- The head of a list does not come before `x`.
  abbrev pub Leads : A → List A → Type 0
  Leads x [] = Unit
  Leads x (y ∷ ys) = before y x ≡ false

  -- No entry comes before the one ahead of it.
  abbrev pub Ordered : List A → Type 0
  Ordered [] = Unit
  Ordered (x ∷ xs) = Leads x xs × Ordered xs

  insert_by-Perm : (x : A) (xs : List A) → Perm (x ∷ xs) (insert_by before x xs)
  unfolding insert_by
  insert_by-Perm x [] = Perm.refl (x ∷ [])
  insert_by-Perm x (y ∷ ys) =
      if_either (Perm (x ∷ y ∷ ys)) (before y x) (y ∷ insert_by before x ys) (x ∷ y ∷ ys)
        (Perm.trans (Perm.swap y x ys) (Perm.cons y (insert_by-Perm x ys))) (Perm.refl _)

  sort_by-Perm : (xs : List A) → Perm xs (sort_by before xs)
  unfolding sort_by
  sort_by-Perm [] = Perm.nil
  sort_by-Perm (x ∷ xs) =
      Perm.trans (Perm.cons x (sort_by-Perm xs)) (insert_by-Perm x (sort_by before xs))

  insert_by-Leads :
      (x y : A) (ys : List A) → before x y ≡ false → Leads y ys → Leads y (insert_by before x ys)
  unfolding insert_by
  insert_by-Leads x y [] e h = e
  insert_by-Leads x y (z ∷ zs) e h = if_either (Leads y) (before z x) _ _ h e

  module _ (asym : (a b : A) → before a b ≡ true → before b a ≡ false) where
    insert_by-Ordered : (x : A) (xs : List A) → Ordered xs → Ordered (insert_by before x xs)
    unfolding insert_by
    insert_by-Ordered x [] h = (tt, tt)
    insert_by-Ordered x (y ∷ ys) h =
        if_cases Ordered (before y x) _ _
          (λ e. (insert_by-Leads x y ys (asym y x e) h.0, insert_by-Ordered x ys h.1)) (λ e. (e, h))

    sort_by-Ordered : (xs : List A) → Ordered (sort_by before xs)
    unfolding sort_by
    sort_by-Ordered [] = tt
    sort_by-Ordered (x ∷ xs) = insert_by-Ordered x _ (sort_by-Ordered xs)

module _ {F : Type 0} ⦃f : Float F⦄ where
  outranks_asym :
      (law : IsFloat F) (a b : LeaderboardEntry F) → outranks a b ≡ true → outranks b a ≡ false
  unfolding outranks
  outranks_asym law a b e =
      ground
        (arith, e, law.equal_sym a.return_pct b.return_pct, law.less_asym b.return_pct a.return_pct)

  length-number_from :
      (n : ℕ) (es : List (LeaderboardEntry F)) → length (number_from n es) ≡ length es
  unfolding number_from
  length-number_from n [] = refl
  length-number_from n (e ∷ es) = ap suc (length-number_from (suc n) es)

  -- The leaderboard is the front of a list of all candidates in which none outranks the one ahead of
  -- it, with ranks from one on, and no longer than its limit, for a number type whose order is
  -- asymmetric and whose equality is symmetric.
  pub leaderboard-Ordered :
      (law : IsFloat F) (window now : ℕ) (trades : List TradeRecord) (limit : ℕ)
      (s : PerformanceStore)
      → (length (leaderboard {F = F} window now trades limit s) ≤ limit_of limit)
        × (sorted : List (LeaderboardEntry F)) × Perm (candidates window now trades s) sorted
        × Ordered outranks sorted
        × (leaderboard window now trades limit s ≡ number_from 1 (take (limit_of limit) sorted))
  unfolding leaderboard
  leaderboard-Ordered law window now trades limit s =
      let sorted = sort_by outranks (candidates window now trades s) in
      (
        omega (
          arith,
          length-number_from 1 (take (limit_of limit) sorted),
          length-take (limit_of limit) sorted,
        ),
        sorted,
        sort_by-Perm outranks _,
        sort_by-Ordered outranks (outranks_asym law) (candidates window now trades s),
        refl,
      )
