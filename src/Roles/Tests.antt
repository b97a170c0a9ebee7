-- ===== src/Roles/Tests.antt =====
-- Instances of the theorems on holdings.
use ssh_arena.Prelude.{◌≡◌, String, List, [], ◌∷◌, arith}
use ssh_arena.Prelude.Int.{ℤ, pos, negsuc}
use ssh_arena.Roles.{deal}
use ssh_arena.Roles.Dealing.{total_of, total_of-deal}

abbrev shares : List (String × ℤ)
shares = ("ENER", pos 40) ∷ ("FOOD", negsuc 3) ∷ ("TECH", pos 61) ∷ []

total_of-deal_example : total_of (deal shares (pos 100)) ≡ 100
total_of-deal_example =
    total_of-deal ("ENER", pos 40) (("FOOD", negsuc 3) ∷ ("TECH", pos 61) ∷ []) 100 (omega arith)
      (omega arith)
