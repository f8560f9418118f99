-- ===== src/Stats/Bottleneck.antt =====
-- `top_bottleneck`: the first of the largest counters.
use accelsim_lite.Prelude.{ℕ, ◌≤◌, ◌<◌, ◌≡◌, refl, ◌⊎◌, inl, inr, [], ◌∷◌, arith, ltb, Bool-cases}
use accelsim_lite.Stats.{CounterMap, Stats, top_bottleneck, top_from}
use accelsim_lite.Prelude.Text.{Text, codes}

-- No counter exceeds the bound.
abbrev AtMost : ℕ → CounterMap → Type 0
AtMost bound [] = Unit
AtMost bound ((name, value) ∷ values) = (value ≤ bound) × AtMost bound values

-- The counter stands in the map behind smaller ones only.
pub data FirstAt (name : Text) (value : ℕ) : CounterMap → Type 0 where
  head : (rest : CounterMap) → AtMost value rest → FirstAt name value ((name, value) ∷ rest)
  behind :
      (other : Text) (small : ℕ) {rest : CounterMap}
      → small < value
      → FirstAt name value rest
      → FirstAt name value ((other, small) ∷ rest)

-- What `top_bottleneck` answers: "None" if no counter has risen, and else the first largest one.
pub data Bottleneck (values : CounterMap) : Text → Type 0 where
  no_stall : AtMost 0 values → Bottleneck values (codes "None")
  stall : {name : Text} (value : ℕ) → 0 < value → FirstAt name value values → Bottleneck values name

AtMost-le : (a b : ℕ) (values : CounterMap) → a ≤ b → AtMost a values → AtMost b values
AtMost-le a b [] h v = tt
AtMost-le a b ((name, value) ∷ values) h v = (omega arith, AtMost-le a b values h v.1)

-- From a best value on, the loop keeps its best name or finds the first larger largest counter.
top_from-FirstAt :
    (best : Text) (best_value : ℕ) (values : CounterMap)
    → (AtMost best_value values × (top_from best best_value values ≡ best))
      ⊎ ((value : ℕ) × (best_value < value)
          × FirstAt (top_from best best_value values) value values)
unfolding top_from
top_from-FirstAt best best_value [] = inl (tt, refl)
top_from-FirstAt best best_value ((name, value) ∷ values) =
    elim (Bool-cases (ltb best_value value)) [
      | inl more ↦ rw more (elim (top_from-FirstAt name value values) [
        | inl (small, e) ↦ inr (value, ground arith, rw e (head values small))
        | inr (v, lt, f) ↦ inr (v, ground arith, behind name value lt f)
      ])
      | inr less ↦ rw less (elim (top_from-FirstAt best best_value values) [
        | inl (small, e) ↦ inl ((ground arith, small), e)
        | inr (v, lt, f) ↦ inr (v, lt, behind name value (ground arith) f)
      ])
    ]

-- `top_bottleneck` names the first of the largest stall counters, or "None" if all are 0.
pub top_bottleneck-Bottleneck :
    (stats : Stats) → Bottleneck stats.stall_counts (top_bottleneck stats)
unfolding top_bottleneck
top_bottleneck-Bottleneck stats = elim (top_from-FirstAt (codes "None") 0 stats.stall_counts) [
  | inl (none_rose, e) ↦ rw e (no_stall none_rose)
  | inr (value, lt, f) ↦ stall value lt f
]
