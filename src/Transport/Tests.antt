-- ===== src/Transport/Tests.antt =====
-- Instances of the theorems on the market stream.
use ssh_arena.Prelude.{refl, String, Bool, true, false, none, some, List, [], ◌∷◌}
use ssh_arena.Transport.{
  Payload, Shape, Envelope, Request, World, Stream, Input, opened, handle, run,
}
use ssh_arena.Transport.Ordered.{Both, IsOrdered, opened-IsOrdered, run-IsOrdered}
use ssh_arena.Transport.Feeds.{IsForeign, handle-IsForeign}

abbrev payload : Payload
payload = record { text = "news"; shape = Shape.about "TECH" none }

abbrev world : World
world = record {
  snapshot = λ s. some payload;
  portfolio = λ s. none;
  chat_history = payload ∷ [];
  private_history = λ s. payload ∷ [];
}

abbrev request_of : String → Request
request_of id = record {
  player_id = id;
  symbols = "TECH" ∷ "TECH" ∷ [];
  include_portfolio = true;
  include_chat = true;
}

abbrev accepts : Envelope → Bool
accepts e = true

abbrev inputs : List Input
inputs =
    Input.request (request_of "p1") world
    ∷ Input.elsewhere
    ∷ Input.from_private payload
    ∷ Input.refresh world
    ∷ []

run-IsOrdered_example : Both IsOrdered (run accepts inputs (opened 7))
run-IsOrdered_example = run-IsOrdered accepts inputs (opened 7) (opened-IsOrdered 7)

abbrev fed : Stream
fed = record {
  player_id = "p1";
  private_feed = some "p1";
  symbols = [];
  include_portfolio = false;
  include_chat = true;
  sequence = 3;
  sent = [];
}

handle-IsForeign_example :
    Both
      (IsForeign accepts "p2" "p1" payload)
      (handle accepts (Input.request (request_of "p2") world) fed)
handle-IsForeign_example =
    handle-IsForeign accepts (request_of "p2") world "p1" payload fed refl refl
