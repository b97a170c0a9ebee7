-- ===== src/MarketEvents/Catalogue/Ready.antt =====
-- What NewEngine makes of the definitions.
use ssh_arena.Prelude.{
  ℕ, ◌^◌, ◌<◌, ◌≡◌, refl, subst, sym, Bool, true, false, Option, none, some, List, [], ◌∷◌,
  if◌then◌else◌, if_cases, All, ltb, leb, ◌==◌, arith,
}
use ssh_arena.Prelude.Int.{
  ℤ, pos, negsuc, ◌≤ℤ◌, ltb_ℤ, leb_ℤ, InRange64, is_positive, wrap64_lem, ◌+ℤ◌, +ℤ_parts,
}
use ssh_arena.Prelude.Text.{is_empty}
use ssh_arena.Prelude.Outcome.{Outcome, ok, err, fail_if, ◌>>=◌, ◌>>◌}
use ssh_arena.Prelude.Runes.{scan_number, scan_int, trim_space, positive_int, negative_int}
use ssh_arena.MarketEvents.{Range, Definition, Engine, random_between}
use ssh_arena.MarketEvents.Catalogue.{
  CatalogueError, Source, Prepared, match_range, ordered, both_read, single, read_range,
  parse_range, prepare, prepare_all, new_engine,
}

-- The bounds of a range are int64 values in order.
pub record IsRange (r : Range) : Type 0 where
  pub in_order : r.low ≤ℤ r.high
  pub low_fits : InRange64 r.low
  pub high_fits : InRange64 r.high

pub record IsReady (d : Definition) : Type 0 where
  pub named : is_empty d.name ≡ false
  pub ranged : IsRange d.multiplier
  pub lasting : is_positive d.duration_seconds ≡ true

Fits : Option ℤ → Type 0
Fits none = Unit
Fits (some z) = InRange64 z

positive_int-Fits : (o : Option ℕ) → Fits (positive_int o)
unfolding Fits
positive_int-Fits none = tt
positive_int-Fits (some n) = if_cases Fits (ltb n (2 ^ 63)) _ _ (λ h. ground (arith, h)) (λ h. tt)

negative_int-Fits : (o : Option ℕ) → Fits (negative_int o)
unfolding Fits
negative_int-Fits none = tt
negative_int-Fits (some n) = if_cases Fits (leb n (2 ^ 63)) _ _ (λ h. ground (arith, h)) (λ h. tt)

scan_int-Fits : (cs : List ℕ) → Fits (scan_int cs)
unfolding scan_int
scan_int-Fits [] = unfold Fits in tt
scan_int-Fits (c ∷ cs) =
    if_cases Fits (c == b'-') _ _ (λ h. negative_int-Fits (scan_number cs))
      (λ h.
        if_cases Fits (c == b'+') _ _ (λ h. positive_int-Fits (scan_number cs))
          (λ h. positive_int-Fits (scan_number (c ∷ cs))))

ordered-IsRange : (a b : ℤ) → InRange64 a → InRange64 b → IsRange (ordered a b)
unfolding ordered
ordered-IsRange a b h k = ground arith

Ranges : Outcome CatalogueError Range → Type 0
Ranges (err e) = Unit
Ranges (ok r) = IsRange r

both_read-Ranges : (a b : Option ℤ) → Fits a → Fits b → Ranges (both_read a b)
unfolding Ranges Fits
both_read-Ranges none b h k = tt
both_read-Ranges (some x) none h k = tt
both_read-Ranges (some x) (some y) h k = ordered-IsRange x y h k

single-Ranges : (o : Option ℤ) → Fits o → Ranges (single o)
unfolding Ranges Fits
single-Ranges none h = tt
single-Ranges (some x) h = ground arith

read_range-Ranges : (value : List ℕ) (o : Option (List ℕ × List ℕ)) → Ranges (read_range value o)
read_range-Ranges value none = single-Ranges (scan_int value) (scan_int-Fits value)
read_range-Ranges value (some (a, b)) =
    both_read-Ranges (scan_int a) (scan_int b) (scan_int-Fits a) (scan_int-Fits b)

parse_range-Ranges : (raw : List ℕ) → Ranges (parse_range raw)
unfolding parse_range
parse_range-Ranges raw = read_range-Ranges (trim_space raw) (match_range (trim_space raw))

module _ {F : Type 0} where
  abbrev ReadyOne : Outcome CatalogueError (Prepared F) → Type 0
  ReadyOne (err e) = Unit
  ReadyOne (ok p) = IsReady p.definition

  -- A list of definitions that are ready, or a refusal.
  abbrev pub AreReady : Outcome CatalogueError (List (Prepared F)) → Type 0
  AreReady (err e) = Unit
  AreReady (ok ps) = All (λ (p : Prepared F). IsReady p.definition) ps

  guarded :
      (b : Bool) (e : CatalogueError) (o : Outcome CatalogueError (Prepared F))
      → (b ≡ false → ReadyOne o)
      → ReadyOne (fail_if b e >> o)
  guarded true e o h = tt
  guarded false e o h = h refl

  with_range :
      (o : Outcome CatalogueError Range) (k : Range → Outcome CatalogueError (Prepared F))
      → Ranges o
      → ((r : Range) → IsRange r → ReadyOne (k r))
      → ReadyOne (o >>= k)
  unfolding Ranges
  with_range (err e) k h next = tt
  with_range (ok r) k h next = next r h

  prepare-ReadyOne : (s : Source F) → ReadyOne (prepare s)
  unfolding prepare
  prepare-ReadyOne s = guarded (is_empty s.name) _ _ (λ named.
      with_range (parse_range s.market_multiplier) _ (parse_range-Ranges s.market_multiplier)
        (λ r ranged. record {
          named = named;
          ranged = ranged;
          lasting =
              if_cases (λ z. is_positive z ≡ true) (is_positive s.duration_seconds) _ _
                (λ long. long) (λ short. refl);
        }))

  join-AreReady :
      (o : Outcome CatalogueError (Prepared F)) (os : Outcome CatalogueError (List (Prepared F)))
      → ReadyOne o
      → AreReady os
      → AreReady (o >>= λ p. os >>= λ ps. ok (p ∷ ps))
  join-AreReady (err e) os h k = tt
  join-AreReady (ok p) (err e) h k = tt
  join-AreReady (ok p) (ok ps) h k = (h, k)

  prepare_all-AreReady : (ss : List (Source F)) → AreReady (prepare_all ss)
  unfolding prepare_all
  prepare_all-AreReady [] = tt
  prepare_all-AreReady (s ∷ ss) =
      join-AreReady (prepare s) (prepare_all ss) (prepare-ReadyOne s) (prepare_all-AreReady ss)

  -- What NewEngine may return.
  abbrev pub StartsReady : Outcome CatalogueError (Engine × List (Prepared F)) → Type 0
  StartsReady (err e) = Unit
  StartsReady (ok (e, ps)) = (0 < e.interval) × (e.planned ≡ none) × AreReady (ok ps)

  started :
      (interval : ℕ) (o : Outcome CatalogueError (List (Prepared F)))
      → AreReady o
      → StartsReady (
          o >>= λ defs. ok (
            record {
              interval = if interval == 0 then 30_000_000_000 else interval;
              planned = none;
              next_seq = 0;
            },
            defs,
          ))
  started interval (err e) h = tt
  started interval (ok ps) h = (ground arith, refl, h)

  -- NewEngine refuses, or makes an engine with a positive interval and nothing planned, over definitions
  -- that all have a name, a positive duration and a range of int64 values in order.
  pub new_engine-StartsReady :
      (interval : ℕ) (sources : List (Source F)) → StartsReady (new_engine interval sources)
  unfolding new_engine
  new_engine-StartsReady interval sources =
      started interval (prepare_all sources) (prepare_all-AreReady sources)

-- A draw of an offset that the range has room for.
abbrev pub FitsRange : ℕ → Range → Type 0
FitsRange offset r = r.low +ℤ pos offset ≤ℤ r.high

raised :
    (a : ℤ) (n : ℕ) (c : ℤ) → InRange64 a → InRange64 c → a +ℤ pos n ≤ℤ c → InRange64 (a +ℤ pos n)
unfolding ◌+ℤ◌
raised (pos m) n (pos k) h i j = ground arith
raised (pos m) n (negsuc k) h i j = ground arith
raised (negsuc m) n (pos k) h i j = ground arith
raised (negsuc m) n (negsuc k) h i j = ground arith

pub random_between-Within :
    (offset : ℕ) (r : Range)
    → IsRange r
    → (ltb_ℤ r.low r.high ≡ true → FitsRange offset r)
    → (r.low ≤ℤ random_between offset r) × (random_between offset r ≤ℤ r.high)
unfolding random_between
random_between-Within offset r h fits =
    if_cases (λ z. (r.low ≤ℤ z) × (z ≤ℤ r.high)) (leb_ℤ r.high r.low) _ _
      (λ narrow. (omega arith, h.in_order))
      (λ wide.
        let room : FitsRange offset r = fits (ground (arith, wide)) in
        let sum = r.low +ℤ pos offset in
        let sized : InRange64 sum = raised r.low offset r.high h.low_fits h.high_fits room in
        subst (λ z. (r.low ≤ℤ z) × (z ≤ℤ r.high)) (sym (wrap64_lem sum sized))
          (omega (arith, +ℤ_parts r.low (pos offset)), room))
