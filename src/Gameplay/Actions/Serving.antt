-- ===== src/Gameplay/Actions/Serving.antt =====
-- What players get of an engine that serves one action after another.
use ssh_arena.Prelude.{
  ◌≡◌, refl, ap, subst, sym, String, inl, inr, Option, none, some, List, [], ◌∷◌, map, ℕ,
}
use ssh_arena.Prelude.Outcome.{Outcome}
use ssh_arena.Prelude.Float.{Float}
use ssh_arena.State.ChatStore.{ChatMessage}
use ssh_arena.MarketEvents.{PlannedEvent}
use ssh_arena.Gameplay.Accounts.{GameError}
use ssh_arena.Gameplay.Orders.{World}
use ssh_arena.Gameplay.Notices.{Mutex, free, held}
use ssh_arena.Gameplay.Sessions.{Game}
use ssh_arena.Gameplay.IntelBuy as Intel
use ssh_arena.Gameplay.Actions.{Action, Reply, Result, execute_action}
use ssh_arena.Gameplay.Actions.Locking.{Waits, execute_action_cases}

-- An action of a player, with what the outside world answers to it.
pub record Request : Type 0 where
  pub world : World
  pub intel_world : Intel.World
  pub request_id : String
  pub player_id : String
  pub action : Action

-- Where an action has no answer, the goroutine waits.
abbrev pub Answer : Type 0 → Type 0
Answer F = Option (Outcome GameError (Reply F))

-- The answer to an action, and what comes after it; one that waits leaves the engine as it is.
unfoldable pub after_action :
    {F R : Type 0} → Game F R → (Game F R → Mutex → List (Answer F)) → Result F R → List (Answer F)
after_action g later (x, none) = none ∷ later g x
after_action g later (x, some (g', answer)) = some answer ∷ later g' x

module _ {F R : Type 0} ⦃f : Float F⦄ (encode : ChatMessage → String)
    (render_preview : String → PlannedEvent → ℕ → String) where
  abbrev pub execute : Request → Game F R → Mutex → Result F R
  execute q =
      execute_action encode render_preview q.world q.intel_world q.request_id q.player_id q.action

  -- `ExecuteAction`, for one action after another.
  unfoldable pub execute_all : List Request → Game F R → Mutex → List (Answer F)
  unfolding after_action
  execute_all [] g x = []
  execute_all (q ∷ qs) g x = after_action g (λ g' y. execute_all qs g' y) (execute q g x)

  -- The action is the purchase of a feed from an engine that is attached, whose preview is due.
  abbrev pub IsStuck : Request → Game F R → Type 0
  IsStuck q g = Waits q.intel_world q.player_id q.action g

  -- Every action is answered, in turn, with the lock given back, up to the first that is stuck; from
  -- that one on, none is.
  pub data Served : List Request → Game F R → List (Answer F) → Type 0 where
    over : (g : Game F R) → Served [] g []
    answered :
        (q : Request) (qs : List Request) (g g' : Game F R) (a : Outcome GameError (Reply F))
        (later : List (Answer F))
        → ¬ IsStuck q g
        → execute q g free ≡ (free, some (g', a))
        → Served qs g' later
        → Served (q ∷ qs) g (some a ∷ later)
    stuck :
        (q : Request) (qs : List Request) (g : Game F R)
        → IsStuck q g
        → Served (q ∷ qs) g (none ∷ map (λ r. none) qs)

  all_wait : (qs : List Request) (g : Game F R) → execute_all qs g held ≡ map (λ r. none) qs
  unfolding execute_all after_action execute_action
  all_wait [] g = refl
  all_wait (q ∷ qs) g = ap (λ l. none ∷ l) (all_wait qs g)

  -- From a free lock on, every action gets its answer, and leaves the lock free, up to the first
  -- purchase of a feed from an attached intel engine whose preview is due at once; neither that
  -- purchase nor any action after it, of any player, is ever answered.
  pub execute_all-Served : (qs : List Request) (g : Game F R) → Served qs g (execute_all qs g free)
  unfolding execute_all after_action
  execute_all-Served [] g = over g
  execute_all-Served (q ∷ qs) g =
      let next = λ (r : Result F R). after_action g (λ g' y. execute_all qs g' y) r in
      elim (execute_action_cases encode render_preview q.world q.intel_world q.request_id
        q.player_id q.action g) [
          | inl (waits, e) ↦
              subst (λ r. Served (q ∷ qs) g (next r)) (sym e)
                (subst (λ l. Served (q ∷ qs) g (none ∷ l)) (sym (all_wait qs g))
                  (stuck q qs g waits))
          | inr (goes, r, e) ↦
              subst (λ r. Served (q ∷ qs) g (next r)) (sym e)
                (answered q qs g r.0 r.1 _ goes e (execute_all-Served qs r.0))
        ]
