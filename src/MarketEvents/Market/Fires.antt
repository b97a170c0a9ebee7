-- ===== src/MarketEvents/Market/Fires.antt =====
-- An event that is planned for a market is never refused by it.
use ssh_arena.Prelude.{
  ℕ, zero, suc, ◌<◌, ◌≡◌, refl, sym, ap, subst, String, Bool, true, false, ◌⊎◌, inl, inr, Option,
  none, some, List, [], ◌∷◌, ltb, if◌then◌else◌, if_false, if_cases, Bool-cases, Option-cases,
  length, All, arith,
}
use ssh_arena.Prelude.Int.{ℤ, ltb_ℤ, ◌≤ℤ◌, is_positive}
use ssh_arena.Prelude.Text.{str_eq, str_eq_refl}
use ssh_arena.Prelude.Outcome.{Outcome, Outcome-cases}
use ssh_arena.Prelude.Float.{Float, IsFloat, ◌*F◌}
use ssh_arena.Exchange.Engine.{PricePoint}
use ssh_arena.Exchange.Service.{Market, ExchangeError}
use ssh_arena.Exchange.Service.Events.{
  EventShockInput, is_listed, affected_symbols, trigger_on, trigger_market_event,
}
use ssh_arena.Exchange.Service.Listed.{IsListing, AnswersEach}
use ssh_arena.Exchange.Service.Listed.Asking.{Reaches, trigger_market_event-Reaches}
use ssh_arena.MarketEvents.{
  Definition, PlannedEvent, Engine, Draws, ticker_at, Stepped, plan_event, plan_chosen, plan,
  plan_missing, fire_due, step,
}
use ssh_arena.MarketEvents.Catalogue.{Prepared, zero_F, at_most, total_from, choose_definition}
use ssh_arena.MarketEvents.Catalogue.Chosen.{
  HasChance, IsNumber, Choice, IsDrawn-HasChance, choose_definition-Choice,
}
use ssh_arena.MarketEvents.Catalogue.Ready.{IsReady, FitsRange, random_between-Within}
use ssh_arena.MarketEvents.Market.{Rolls, Ticked, draws_of, to_shock, fire, tick}

-- The event is about every ticker, or about one of these.
pub IsAbout : List String → PlannedEvent → Type 0
IsAbout tickers p = (p.global ≡ true) ⊎ (is_listed p.symbol tickers ≡ true)

-- An event with the range, the duration and the scope of a definition, for these tickers.
pub record IsOf (tickers : List String) (d : Definition) (p : PlannedEvent) : Type 0 where
  pub low : d.multiplier.low ≤ℤ p.multiplier_pct
  pub high : p.multiplier_pct ≤ℤ d.multiplier.high
  pub duration : p.duration_seconds ≡ d.duration_seconds
  pub lasting : is_positive p.duration_seconds ≡ true
  pub global : p.global ≡ d.global
  pub about : IsAbout tickers p

ticker_at-listed : (ts : List String) (i : ℕ) → i < length ts → is_listed (ticker_at ts i) ts ≡ true
unfolding is_listed
ticker_at-listed [] i h = absurd (omega arith)
ticker_at-listed (t ∷ ts) zero h = ap (λ b. if b then true else is_listed t ts) (str_eq_refl t)
ticker_at-listed (t ∷ ts) (suc i) h =
    if_cases (λ b. b ≡ true) (str_eq t (ticker_at ts i)) _ _ (λ same. refl)
      (λ other. ticker_at-listed ts i (omega arith))

module _ (render : String → String → ℤ → String) (is_blank : String → Bool) where
  plan_event-IsOf :
      (d : Draws) (tickers : List String) (now : ℕ) (e : Engine) (def : Definition)
      → IsReady def
      → d.ticker < length tickers
      → (ltb_ℤ def.multiplier.low def.multiplier.high ≡ true → FitsRange d.offset def.multiplier)
      → IsOf tickers def (plan_event render is_blank d tickers now e def)
  unfolding plan_event IsAbout
  plan_event-IsOf d tickers now e def ready small fits =
      let (low, high) = random_between-Within d.offset def.multiplier ready.ranged fits in
      record {
        low = low;
        high = high;
        duration = refl;
        lasting = ready.lasting;
        global = refl;
        about = elim (Bool-cases def.global) [
          | inl all ↦ inl all
          | inr one ↦ inr (
              subst (λ s. is_listed s tickers ≡ true) (sym (if_false _ _ one))
                (ticker_at-listed tickers d.ticker small))
        ];
      }

trigger-tickers :
    {F : Type 0} ⦃f : Float F⦄ (now : ℕ) (i : EventShockInput) (m : Market F)
    → (trigger_market_event now i m).0.tickers ≡ m.tickers
unfolding trigger_market_event trigger_on
trigger-tickers now i m = elim (Outcome-cases (affected_symbols i m.tickers)) [
  | inl (ss, e) ↦ ap (λ o. (trigger_on now i m o).0.tickers) e
  | inr (x, e) ↦ ap (λ o. (trigger_on now i m o).0.tickers) e
]

module _ {F : Type 0} ⦃f : Float F⦄ (defs : List (Prepared F)) where
  -- An event of a definition that has a chance, for these tickers.
  pub Launchable : List String → PlannedEvent → Type 0
  Launchable tickers p = (x : Definition) × HasChance defs x × IsOf tickers x p

  abbrev pub Planned : List String → Option PlannedEvent → Type 0
  Planned tickers none = Unit
  Planned tickers (some p) = Launchable tickers p

  -- What the random generator answers: a share that scales nothing up, the index of a ticker, and an
  -- offset that the chosen definition's range has room for.
  pub record IsRoll (tickers : List String) (r : Rolls F) : Type 0 where
    pub scaled : at_most (r.share *F total_from zero_F defs) (total_from zero_F defs) ≡ true
    pub small : 0 < length tickers → r.ticker < length tickers
    pub fits :
        (x : Definition)
        → choose_definition r.share defs ≡ some x
        → ltb_ℤ x.multiplier.low x.multiplier.high ≡ true
        → FitsRange r.offset x.multiplier

  -- The definitions are ready, their chances are numbers, and zero is at most zero.
  pub record IsCatalogue : Type 0 where
    pub ready : All (λ (p : Prepared F). IsReady p.definition) defs
    pub numbers : All IsNumber defs
    pub zero_law : at_most {F = F} zero_F zero_F ≡ true

HasChance-IsReady :
    {F : Type 0} ⦃f : Float F⦄ (defs : List (Prepared F)) (x : Definition)
    → All (λ (p : Prepared F). IsReady p.definition) defs
    → HasChance defs x
    → IsReady x
HasChance-IsReady [] x ready h = absurd h
HasChance-IsReady (d ∷ ds) x ready (inl (same, _)) = subst IsReady same ready.0
HasChance-IsReady (d ∷ ds) x ready (inr later) = HasChance-IsReady ds x ready.1 later

module _ {F : Type 0} ⦃f : Float F⦄ (render : String → String → ℤ → String)
    (is_blank : String → Bool) (defs : List (Prepared F)) (catalogue : IsCatalogue defs) where
  chosen-HasChance :
      (r : Rolls F) (tickers : List String) (x : Definition)
      → IsRoll defs tickers r
      → choose_definition r.share defs ≡ some x
      → HasChance defs x
  chosen-HasChance r tickers x roll e =
      IsDrawn-HasChance (r.share *F total_from zero_F defs) zero_F defs x
        (subst (Choice (r.share *F total_from zero_F defs) (total_from zero_F defs) defs) e (
          choose_definition-Choice r.share defs catalogue.numbers catalogue.zero_law roll.scaled)).1

  launch :
      (r : Rolls F) (tickers : List String) (now : ℕ) (e : Engine) (x : Definition)
      → IsRoll defs tickers r
      → 0 < length tickers
      → choose_definition r.share defs ≡ some x
      → Launchable defs tickers (plan_event render is_blank (draws_of defs r) tickers now e x)
  unfolding Launchable draws_of
  launch r tickers now e x roll some_ticker chosen =
      let chance = chosen-HasChance r tickers x roll chosen in
      (
        x,
        chance,
        plan_event-IsOf render is_blank (draws_of defs r) tickers now e x
            (HasChance-IsReady defs x catalogue.ready chance) (roll.small some_ticker)
            (roll.fits x chosen),
      )

  plan-Planned :
      (r : Rolls F) (tickers : List String) (now : ℕ) (e : Engine)
      → IsRoll defs tickers r
      → Planned defs tickers e.planned
      → Planned defs tickers (plan render is_blank (draws_of defs r) tickers now e).0.planned
  unfolding plan plan_chosen draws_of
  plan-Planned r [] now e roll h = h
  plan-Planned r (t ∷ ts) now e roll h = elim (Option-cases (choose_definition r.share defs)) [
    | inl nothing ↦
        subst
          (λ o.
            Planned defs (t ∷ ts)
              (plan_chosen render is_blank (draws_of defs r) (t ∷ ts) now e o).0.planned)
          (sym nothing) h
    | inr (x, chosen) ↦
        subst
          (λ o.
            Planned defs (t ∷ ts)
              (plan_chosen render is_blank (draws_of defs r) (t ∷ ts) now e o).0.planned)
          (sym chosen) (launch r (t ∷ ts) now e x roll (omega arith) chosen)
  ]

  fire_due-Planned :
      (r : Rolls F) (tickers : List String) (now : ℕ) (e : Engine) (plans : List PlannedEvent)
      (o : Option PlannedEvent)
      → IsRoll defs tickers r
      → Planned defs tickers e.planned
      → Planned defs tickers o
      → let s = fire_due render is_blank (draws_of defs r) tickers now (e, plans) o in
        Planned defs tickers s.fired × Planned defs tickers s.engine.planned
  unfolding fire_due
  fire_due-Planned r tickers now e plans none roll h k = (tt, h)
  fire_due-Planned r tickers now e plans (some p) roll h k =
      if_cases
        (λ (s : Stepped). Planned defs tickers s.fired × Planned defs tickers s.engine.planned)
        (ltb now p.scheduled_at) _ _ (λ early. (tt, h))
        (λ late. (k, plan-Planned r tickers now (record e { planned = none }) roll tt))

  plan_missing-Planned :
      (r : Rolls F) (tickers : List String) (now : ℕ) (e : Engine) (o : Option PlannedEvent)
      → IsRoll defs tickers r
      → Planned defs tickers e.planned
      → Planned defs tickers
          (plan_missing render is_blank (draws_of defs r) tickers now e o).0.planned
  unfolding plan_missing
  plan_missing-Planned r tickers now e none roll h = plan-Planned r tickers now e roll h
  plan_missing-Planned r tickers now e (some p) roll h = h

  step-Planned :
      (r r' : Rolls F) (tickers : List String) (now : ℕ) (e : Engine)
      → IsRoll defs tickers r
      → IsRoll defs tickers r'
      → Planned defs tickers e.planned
      → let s = step render is_blank (draws_of defs r) (draws_of defs r') tickers now e in
        Planned defs tickers s.fired × Planned defs tickers s.engine.planned
  unfolding step
  step-Planned r r' tickers now e roll roll' h =
      let first = plan_missing render is_blank (draws_of defs r) tickers now e e.planned in
      let sound = plan_missing-Planned r tickers now e e.planned roll h in
      fire_due-Planned r' tickers now first.0 first.1 (first.0).planned roll' sound sound

  -- No answer, where nothing fired, or a price for every ticker or for one of them.
  abbrev pub Answered :
      (String → ℕ) → List String → Option (Outcome ExchangeError (List PricePoint)) → Type 0
  Answered ticks tickers none = Unit
  Answered ticks tickers (some r) =
      AnswersEach ticks tickers r
      ⊎ ((s : String) × (is_listed s tickers ≡ true) × AnswersEach ticks (s ∷ []) r)

  reached :
      (ticks : String → ℕ) (m : Market F) (s : String) (g b : Bool)
      (r : Outcome ExchangeError (List PricePoint))
      → b ≡ is_listed s m.tickers
      → (g ≡ true) ⊎ (b ≡ true)
      → Reaches ticks g b m s r
      → Answered ticks m.tickers (some r)
  reached ticks m s true b r same about h = inl h
  reached ticks m s false true r same about h = inr (s, sym same, h)
  reached ticks m s false false r same (inl e) h = cc e
  reached ticks m s false false r same (inr e) h = cc e

  abbrev pub Served : (String → ℕ) → Market F → Ticked F → Type 0
  Served ticks m t =
      IsListing ticks t.market
      × Answered ticks m.tickers t.answer
      × Planned defs t.market.tickers t.engine.planned

  fire-Served :
      (ticks : String → ℕ) (law : IsFloat F) (now : ℕ) (e : Engine) (m : Market F)
      (o : Option PlannedEvent)
      → IsListing ticks m
      → Planned defs m.tickers o
      → Planned defs m.tickers e.planned
      → Served ticks m (fire now e m o)
  unfolding fire to_shock Launchable IsAbout
  fire-Served ticks law now e m none listing h k = (listing, tt, k)
  fire-Served ticks law now e m (some p) listing (x, chance, event) k =
      let (after, answer) = trigger_market_event-Reaches ticks law now (to_shock p) m listing in
      (
        after,
        reached ticks m p.symbol p.global (is_listed p.symbol m.tickers) _ refl event.about answer,
        subst (λ ts. Planned defs ts e.planned) (sym (trigger-tickers now (to_shock p) m)) k,
      )

  -- A tick of the timer keeps a market that lists the same symbols everywhere such a market; an event
  -- that fires is answered with a price for every ticker, or for one, and never refused; and what is
  -- planned afterwards can again be fired: it is an event of a definition that has a chance, with its
  -- duration, which is positive, its scope, and a multiplier in its range. The definitions are ready
  -- and their chances numbers, the random generator answers within its bounds, and what was planned
  -- before is such an event.
  pub tick-Served :
      (ticks : String → ℕ) (law : IsFloat F) (r r' : Rolls F) (now : ℕ) (e : Engine) (m : Market F)
      → IsListing ticks m
      → IsRoll defs m.tickers r
      → IsRoll defs m.tickers r'
      → Planned defs m.tickers e.planned
      → Served ticks m (tick render is_blank defs r r' now e m)
  unfolding tick
  tick-Served ticks law r r' now e m listing roll roll' h =
      let s = step render is_blank (draws_of defs r) (draws_of defs r') m.tickers now e in
      let (fires, next) = step-Planned r r' m.tickers now e roll roll' h in
      fire-Served ticks law now s.engine m s.fired listing fires next
