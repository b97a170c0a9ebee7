-- ===== src/MarketEvents/Catalogue.antt =====
-- The definitions of internal/marketevents/engine.go: how NewEngine prepares them, and how one is
-- chosen by its chance. `draw` is what the random generator's Float64 answers.
use ssh_arena.Prelude.{
  ℕ, zero, suc, ◌+◌, ◌-◌, String, Bool, true, false, not, ◌||◌, Option, none, some, List, [], ◌∷◌,
  ◌++◌, ltb, leb, ◌==◌, if◌then◌else◌,
}
use ssh_arena.Prelude.Int.{ℤ, pos, ltb_ℤ, is_positive}
use ssh_arena.Prelude.Text.{is_empty}
use ssh_arena.Prelude.Outcome.{Outcome, ok, err, ◌>>=◌, ◌>>◌, fail_if}
use ssh_arena.Prelude.Float.{Float, ◌+F◌, ◌*F◌}
use ssh_arena.Prelude.Runes.{is_digit, is_nil, trim_space, scan_int}
use ssh_arena.MarketEvents.{Range, Definition, Engine}
pub mod Ready
pub mod Chosen

pub data CatalogueError : Type 0 where
  name_required bad_range : CatalogueError

-- `Definition`, as it is read.
pub record Source (F : Type 0) : Type 0 where
  pub name : String
  pub message : String
  pub chance : F
  pub market_multiplier : List ℕ
  pub duration_seconds : ℤ
  pub global : Bool

-- `preparedDefinition`.
pub record Prepared (F : Type 0) : Type 0 where
  pub definition : Definition
  pub chance : F

-- The leading digits of a text, and what follows them.
unfoldable pub span_digits : List ℕ → List ℕ × List ℕ
span_digits [] = ([], [])
span_digits (c ∷ cs) =
    let (ds, rest) = span_digits cs in if is_digit c then (c ∷ ds, rest) else ([], c ∷ cs)

abbrev some_digits : List ℕ × List ℕ → Option (List ℕ × List ℕ)
some_digits (ds, rest) = if is_nil ds then none else some (ds, rest)

abbrev with_minus : Option (List ℕ × List ℕ) → Option (List ℕ × List ℕ)
with_minus none = none
with_minus (some (ds, rest)) = some (b'-' ∷ ds, rest)

-- `-?\d+` at the front of a text, and what follows it.
unfoldable pub signed_digits : List ℕ → Option (List ℕ × List ℕ)
unfolding span_digits
signed_digits [] = none
signed_digits (c ∷ cs) =
    if c == b'-'
    then with_minus (some_digits (span_digits cs))
    else some_digits (span_digits (c ∷ cs))

abbrev whole : List ℕ → Option (List ℕ × List ℕ) → Option (List ℕ × List ℕ)
whole a none = none
whole a (some (b, [])) = some (a, b)
whole a (some (b, c ∷ cs)) = none

abbrev after_dash : Option (List ℕ × List ℕ) → Option (List ℕ × List ℕ)
after_dash none = none
after_dash (some (a, [])) = none
after_dash (some (a, c ∷ cs)) = if c == b'-' then whole a (signed_digits cs) else none

-- `rangePattern.FindStringSubmatch`: the two groups.
unfoldable pub match_range : List ℕ → Option (List ℕ × List ℕ)
unfolding signed_digits
match_range value = after_dash (signed_digits value)

-- The lower of two values first.
unfoldable pub ordered : ℤ → ℤ → Range
ordered a b = if ltb_ℤ b a then record { low = b; high = a } else record { low = a; high = b }

abbrev both_read : Option ℤ → Option ℤ → Outcome CatalogueError Range
both_read none b = err bad_range
both_read (some x) none = err bad_range
both_read (some x) (some y) = ok (ordered x y)

abbrev single : Option ℤ → Outcome CatalogueError Range
single none = err bad_range
single (some x) = ok (record { low = x; high = x })

abbrev read_range : List ℕ → Option (List ℕ × List ℕ) → Outcome CatalogueError Range
read_range value none = single (scan_int value)
read_range value (some (a, b)) = both_read (scan_int a) (scan_int b)

-- `ParseRange`.
unfoldable pub parse_range : List ℕ → Outcome CatalogueError Range
unfolding match_range ordered
parse_range raw = let value = trim_space raw in read_range value (match_range value)

module _ {F : Type 0} where
  -- One round of the loop of `NewEngine`.
  unfoldable pub prepare : Source F → Outcome CatalogueError (Prepared F)
  unfolding parse_range
  prepare s = do
    fail_if (is_empty s.name) name_required
    multiplier ← parse_range s.market_multiplier
    ok (record {
      definition = record {
        name = s.name;
        message = s.message;
        global = s.global;
        multiplier = multiplier;
        duration_seconds = if is_positive s.duration_seconds then s.duration_seconds else pos 30;
      };
      chance = s.chance;
    })

  unfoldable pub prepare_all : List (Source F) → Outcome CatalogueError (List (Prepared F))
  unfolding prepare
  prepare_all [] = ok []
  prepare_all (s ∷ ss) = do p ← prepare s; ps ← prepare_all ss; ok (p ∷ ps)

  -- `NewEngine`: an interval that is not positive is 30 seconds, in nanoseconds.
  unfoldable pub new_engine :
      ℕ → List (Source F) → Outcome CatalogueError (Engine × List (Prepared F))
  unfolding prepare_all
  new_engine interval sources = do
    defs ← prepare_all sources
    ok (
      record {
        interval = if interval == 0 then 30_000_000_000 else interval;
        planned = none;
        next_seq = 0;
      },
      defs,
    )

module _ {F : Type 0} ⦃f : Float F⦄ where
  abbrev pub zero_F : F
  zero_F = f.of_int (pos 0)

  abbrev pub at_most : F → F → Bool
  at_most a b = f.less a b || f.equal a b

  -- The sum of the positive chances, from a sum on.
  unfoldable pub total_from : F → List (Prepared F) → F
  total_from total [] = total
  total_from total (d ∷ ds) =
      total_from (if f.less zero_F d.chance then total +F d.chance else total) ds

  abbrev last_of : Prepared F → List (Prepared F) → Definition
  last_of d [] = d.definition
  last_of d (e ∷ es) = last_of e es

  -- The definition whose share of the total the roll falls into, if the loop finds it.
  unfoldable pub roll_from : F → F → List (Prepared F) → Option Definition
  roll_from roll cumulative [] = none
  roll_from roll cumulative (d ∷ ds) =
      let next = cumulative +F d.chance in
      let skipped = roll_from roll cumulative ds in
      let later = roll_from roll next ds in
      if at_most d.chance zero_F
      then skipped
      else if at_most roll next
      then some d.definition
      else later

  abbrev or_last : Prepared F → List (Prepared F) → Option Definition → Option Definition
  or_last d ds none = some (last_of d ds)
  or_last d ds (some x) = some x

  -- `chooseDefinitionLocked`. An empty list has no positive total.
  unfoldable pub choose_definition : F → List (Prepared F) → Option Definition
  unfolding total_from roll_from
  choose_definition draw [] = none
  choose_definition draw (d ∷ ds) =
      let total = total_from zero_F (d ∷ ds) in
      if at_most total zero_F
      then none
      else or_last d ds (roll_from (draw *F total) zero_F (d ∷ ds))
