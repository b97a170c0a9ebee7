-- ===== src/Roles/Dealing.antt =====
-- The holdings of a new player share out the target exactly, and none is negative.
use ssh_arena.Prelude.{
  ℕ, ◌+◌, ◌-◌, ◌^◌, ◌≤◌, ◌<◌, ◌≡◌, ap, ◌∙◌, String, false, List, [], ◌∷◌, All, if◌then◌else◌, arith,
}
use ssh_arena.Prelude.Int.{ℤ, pos, negsuc, pos_part, sub64, is_negative, max64}
use ssh_arena.Prelude.Int.Laws.{sub64_exact}
use ssh_arena.Roles.{deal}

-- What the shares but the last give away; a negative share gives nothing.
abbrev pub given_before : List (String × ℤ) → ℕ
given_before [] = 0
given_before (p ∷ []) = 0
given_before (p ∷ q ∷ ps) = pos_part p.1 + given_before (q ∷ ps)

abbrev pub total_of : List (String × ℤ) → ℕ
total_of [] = 0
total_of (p ∷ ps) = pos_part p.1 + total_of ps

given_exact : (z : ℤ) → (if is_negative z then pos 0 else z) ≡ pos (pos_part z)
given_exact (pos n) = ground arith
given_exact (negsuc n) = ground arith

-- Whatever the shares and the target are, no symbol gets a negative holding.
pub deal-All :
    (ps : List (String × ℤ)) (target : ℤ) → All (λ p. is_negative p.1 ≡ false) (deal ps target)
unfolding deal max64
deal-All [] target = tt
deal-All (p ∷ []) target = (ground arith, tt)
deal-All (p ∷ q ∷ ps) target = (ground arith, deal-All (q ∷ ps) _)

-- If there is a share, and all but the last together give at most the target, an int64, then what
-- all symbols get adds up to exactly the target.
pub total_of-deal :
    (p : String × ℤ) (ps : List (String × ℤ)) (target : ℕ)
    → target < 2 ^ 63
    → given_before (p ∷ ps) ≤ target
    → total_of (deal (p ∷ ps) (pos target)) ≡ target
unfolding deal max64
total_of-deal p [] target fits h = ground arith
total_of-deal p (q ∷ ps) target fits h =
    let n = pos_part p.1 in
    let rest = total_of-deal q ps (target - n) (omega arith) (omega arith) in
    let given : (if is_negative p.1 then pos 0 else p.1) ≡ pos n = given_exact p.1 in
    let left : sub64 (pos target) (if is_negative p.1 then pos 0 else p.1) ≡ pos (target - n) =
      ap (sub64 (pos target)) given ∙ sub64_exact target n (omega arith) fits in
    let tail : total_of
          (deal (q ∷ ps) (sub64 (pos target) (if is_negative p.1 then pos 0 else p.1)))
        ≡ target - n =
      ap (λ z. total_of (deal (q ∷ ps) z)) left ∙ rest in
    let head : pos_part (if is_negative p.1 then pos 0 else p.1) ≡ n = ap pos_part given in
    omega (arith, head, tail, h)
