-- ===== src/Channels/Tests.antt =====
-- Runs of channels, and instances of their theorems.
use ssh_arena.Prelude.{ℕ, ◌≡◌, refl, none, List, [], ◌∷◌}
use ssh_arena.Channels.{Hub, Event, subscribed, left, published, received, run, subscribe, new}
use ssh_arena.Channels.Locked.{Runs, run-Runs, new-IsSound, subscribe-IsSound}
use ssh_arena.Channels.Unlocked.{emit_around, emit_around_panics}

abbrev empty_hub : Hub ℕ
empty_hub = new 2

abbrev events : List (Event ℕ)
events =
    subscribed
    ∷ subscribed
    ∷ published 7
    ∷ left 0
    ∷ published 8
    ∷ received 1
    ∷ left 0
    ∷ published 9
    ∷ []

run-Runs_example : Runs 2 (run events empty_hub)
unfolding new
run-Runs_example = run-Runs events empty_hub (new-IsSound 2)

emit_around_panics_example : emit_around (left 0 ∷ []) 7 (subscribe empty_hub) ≡ none
unfolding new subscribe
emit_around_panics_example =
    emit_around_panics 7 0 [] (subscribe empty_hub) (subscribe-IsSound empty_hub (new-IsSound 2))
      refl
