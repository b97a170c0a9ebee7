-- ===== src/MarketEvents/Firing.antt =====
-- When events fire.
use ssh_arena.Prelude.{
  ℕ, ◌<◌, ◌≡◌, refl, ap, ◌∙◌, sym, subst, String, Bool, Option, none, some, List, [], ◌∷◌, ltb,
  if◌then◌else◌, if_true, Bool-cases, inl, inr, arith,
}
use ssh_arena.Prelude.Int.{ℤ}
use ssh_arena.MarketEvents.{
  PlannedEvent, Engine, Draws, Definition, plan_event, plan_chosen, plan, plan_missing, fire_due,
  step,
}

-- The planned event, if its time has come.
pub due : ℕ → Option PlannedEvent → Option PlannedEvent
due now none = none
due now (some p) = if ltb now p.scheduled_at then none else some p

-- A planned event, if there is one, lies ahead.
pub Ahead : ℕ → Option PlannedEvent → Type 0
Ahead now none = Unit
Ahead now (some p) = now < p.scheduled_at

Ahead-due : (now : ℕ) (o : Option PlannedEvent) → Ahead now o → due now o ≡ none
unfolding Ahead due
Ahead-due now none h = refl
Ahead-due now (some p) h = if_true {b = ltb now p.scheduled_at} _ _ (ground (arith, h))

module _ (render : String → String → ℤ → String) (is_blank : String → Bool) where
  plan_chosen-Ahead :
      (d : Draws) (tickers : List String) (now : ℕ) (e : Engine) (c : Option Definition)
      → 0 < e.interval
      → e.planned ≡ none
      → Ahead now (plan_chosen render is_blank d tickers now e c).0.planned
        × ((plan_chosen render is_blank d tickers now e c).0.interval ≡ e.interval)
  unfolding Ahead plan_chosen plan_event
  plan_chosen-Ahead d tickers now e none pos_i gap = (subst (Ahead now) (sym gap) tt, refl)
  plan_chosen-Ahead d tickers now e (some def) pos_i gap = (omega (arith, pos_i), refl)

  plan-Ahead :
      (d : Draws) (tickers : List String) (now : ℕ) (e : Engine)
      → 0 < e.interval
      → e.planned ≡ none
      → Ahead now (plan render is_blank d tickers now e).0.planned
        × ((plan render is_blank d tickers now e).0.interval ≡ e.interval)
  unfolding plan
  plan-Ahead d [] now e pos_i gap = (subst (Ahead now) (sym gap) (unfold Ahead in tt), refl)
  plan-Ahead d (t ∷ ts) now e pos_i gap = plan_chosen-Ahead d (t ∷ ts) now e d.chosen pos_i gap

  fire_due-Ahead :
      (d : Draws) (tickers : List String) (now : ℕ) (e : Engine) (plans : List PlannedEvent)
      (o : Option PlannedEvent)
      → 0 < e.interval
      → e.planned ≡ o
      → let s = fire_due render is_blank d tickers now (e, plans) o in
        (s.fired ≡ due now o) × Ahead now s.engine.planned × (s.engine.interval ≡ e.interval)
  unfolding fire_due due Ahead
  fire_due-Ahead d tickers now e plans none pos_i here =
      (refl, subst (Ahead now) (sym here) tt, refl)
  fire_due-Ahead d tickers now e plans (some p) pos_i here =
      elim (Bool-cases (ltb now p.scheduled_at)) [
        | inl early ↦ rw early (refl, subst (Ahead now) (sym here) (ground (arith, early)), refl)
        | inr late ↦
            let next = plan-Ahead d tickers now (record e { planned = none }) pos_i refl in
            rw late (refl, next.0, next.1)
      ]

  plan_missing-due :
      (d : Draws) (tickers : List String) (now : ℕ) (e : Engine) (o : Option PlannedEvent)
      → 0 < e.interval
      → e.planned ≡ o
      → let first = (plan_missing render is_blank d tickers now e o).0 in
        (due now first.planned ≡ due now o) × (first.interval ≡ e.interval)
  unfolding plan_missing due
  plan_missing-due d tickers now e none pos_i here =
      let fresh = plan-Ahead d tickers now e pos_i here in
      (Ahead-due now (plan render is_blank d tickers now e).0.planned fresh.0, fresh.1)
  plan_missing-due d tickers now e (some p) pos_i here = (ap (due now) here, refl)

  -- With a positive interval, a step fires the planned event exactly if its time has come, never one
  -- that it has just planned, and afterwards the planned event, if there is one, lies ahead.
  pub step-due :
      (d d' : Draws) (tickers : List String) (now : ℕ) (e : Engine)
      → 0 < e.interval
      → let s = step render is_blank d d' tickers now e in
        (s.fired ≡ due now e.planned)
        × Ahead now s.engine.planned
        × (s.engine.interval ≡ e.interval)
  unfolding step
  step-due d d' tickers now e pos_i =
      let first = plan_missing render is_blank d tickers now e e.planned in
      let (same, kept) = plan_missing-due d tickers now e e.planned pos_i refl in
      let last =
        fire_due-Ahead d' tickers now first.0 first.1 (first.0).planned
          (subst (λ i. 0 < i) (sym kept) pos_i) refl in
      (last.0 ∙ same, last.1, last.2 ∙ kept)
