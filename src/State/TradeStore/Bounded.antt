-- ===== src/State/TradeStore/Bounded.antt =====
-- What `Append` keeps.
use ssh_arena.Prelude.{
  ℕ, ◌-◌, ◌≤◌, ◌≡◌, refl, sym, Bool, List, [], ◌∷◌, ◌++◌, ltb, if◌then◌else◌, if_cases, ◌⊎◌, length,
  length-drop, take, drop, take-append-drop, Bool-cases, inl, inr, arith, append-nil, subst,
}
use ssh_arena.State.TradeStore.{TradeRecord, TradeStore, last_n, append}

-- The list cut off what `last_n` keeps.
pub last_n-suffix {ℓ} :
    {A : Type ℓ} (n : ℕ) (xs : List A)
    → (length (last_n n xs) ≤ n) × (older : List A) × (older ++ last_n n xs ≡ xs)
unfolding last_n
last_n-suffix n xs = elim (Bool-cases (ltb n (length xs))) [
  | inl e ↦ (
    subst (λ b. length (if b then drop (length xs - n) xs else xs) ≤ n) (sym e)
        (omega (arith, length-drop (length xs - n) xs)),
    take (length xs - n) xs,
    subst (λ b. take (length xs - n) xs ++ (if b then drop (length xs - n) xs else xs) ≡ xs) (sym e)
        (take-append-drop (length xs - n) xs),
  )
  | inr e ↦ (
    subst (λ b. length (if b then drop (length xs - n) xs else xs) ≤ n) (sym e) (ground (arith, e)),
    [],
    subst (λ b. (if b then drop (length xs - n) xs else xs) ≡ xs) (sym e) refl,
  )
]

-- Nothing is cut off, or exactly `n` entries are left.
pub last_n-cut {ℓ} :
    {A : Type ℓ} (n : ℕ) (xs : List A)
    → (older : List A) × (older ++ last_n n xs ≡ xs) × ((older ≡ []) ⊎ (length (last_n n xs) ≡ n))
unfolding last_n
last_n-cut n xs =
    if_cases (λ ys. (older : List _) × (older ++ ys ≡ xs) × ((older ≡ []) ⊎ (length ys ≡ n)))
      (ltb n (length xs)) _ _
      (λ e. (
        take (length xs - n) xs,
        take-append-drop (length xs - n) xs,
        inr (ground (arith, e, length-drop (length xs - n) xs)),
      ))
      (λ e. ([], refl, inl refl))

-- Appending to a history within its bound keeps it within: what is left are the newest records,
-- the stored ones and then the new ones, less a front that is dropped, and at most `max_records`
-- of them.
pub append-Bounded :
    (written : Bool) (rs : List TradeRecord) (s : TradeStore)
    → length s.trades ≤ s.max_records
    → (length (append written rs s).0.trades ≤ s.max_records)
      × ((append written rs s).0.max_records ≡ s.max_records)
      × (older : List TradeRecord) × (older ++ (append written rs s).0.trades ≡ s.trades ++ rs)
unfolding append
append-Bounded written [] s h = (h, refl, [], sym (append-nil s.trades))
append-Bounded written (r ∷ rs) s h =
    let kept = last_n-suffix s.max_records (s.trades ++ r ∷ rs) in (kept.0, refl, kept.1, kept.2)
