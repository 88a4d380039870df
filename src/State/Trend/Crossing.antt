-- ===== src/State/Trend/Crossing.antt =====
-- When a crossing is reported; internal/state/trend.go.
use flow_indicator.Base.{
  ℕ, zero, suc, ◌+◌, ◌<◌, ◌≡◌, ◌≢◌, ◌∙◌, ◌⊎◌, Option, none, some, List, [], ◌∷◌, arith, replicate,
}
use flow_indicator.Metrics.{Band, unmeasured}
use flow_indicator.State.Trend.{TrendMetric, TrendState, Trend, observe_metric}

-- Between turns a candidate band differs from the confirmed one, and has not held long enough.
pub record IsPending (durability : ℕ) (st : TrendState) : Type 0 where
  pub short : (st.candidate ≡ unmeasured) ⊎ (st.held < durability)
  pub other : (st.candidate ≡ unmeasured) ⊎ (st.candidate ≢ st.confirmed)
  pub none_yet : st.candidate ≡ unmeasured → st.held ≡ 0
  pub unconfirmed : st.confirmed ≡ unmeasured → st.candidate ≡ unmeasured

-- A turn keeps a metric's state between turns: a candidate differs from the confirmed band and
-- has not held long enough.
pub observe_metric-IsPending :
    (durability : ℕ) (m : TrendMetric) (b : Band) (st : TrendState)
    → IsPending durability st
    → IsPending durability (observe_metric durability m b st).0
unfolding observe_metric
observe_metric-IsPending durability m b st v = ground arith

-- Between turns and with a positive durability, a trend is reported only for a measured band that
-- differs from the confirmed, measured one, after exactly that many turns; the band is then
-- confirmed and the count starts afresh.
pub observe_metric-reports :
    (durability : ℕ) (m : TrendMetric) (b : Band) (st : TrendState) (t : Trend)
    → IsPending durability st
    → 0 < durability
    → (observe_metric durability m b st).1 ≡ some t
    → (t.metric ≡ m)
      × (t.from ≡ st.confirmed)
      × (t.to ≡ b)
      × (t.from ≢ unmeasured)
      × (t.to ≢ unmeasured)
      × (t.from ≢ t.to)
      × (t.turns ≡ durability)
      × ((observe_metric durability m b st).0
          ≡ record { confirmed = b; candidate = unmeasured; held = 0 })
unfolding observe_metric
observe_metric-reports durability m b st t v p h = ground arith

abbrev follow :
    TrendState × Option Trend → (TrendState → TrendState × List Trend) → TrendState × List Trend
follow (st, none) k = k st
follow (st, some t) k = ((k st).0, t ∷ (k st).1)

-- The tracker of one metric over the bands of successive turns, and what it reported.
unfoldable pub run : ℕ → TrendMetric → List Band → TrendState → TrendState × List Trend
run durability m [] st = (st, [])
run durability m (b ∷ bs) st = follow (observe_metric durability m b st) (run durability m bs)

abbrev pub settled : Band → TrendState
settled c = record { confirmed = c; candidate = unmeasured; held = 0 }

abbrev leaving : Band → Band → ℕ → TrendState
leaving c b k = record { confirmed = c; candidate = b; held = k }

abbrev pub crossed : TrendMetric → Band → Band → ℕ → Trend
crossed m c b n = record { metric = m; from = c; to = b; turns = n }

run-silent :
    (durability : ℕ) (m : TrendMetric) (b : Band) (bs : List Band) (st st' : TrendState)
    → observe_metric durability m b st ≡ (st', none)
    → run durability m (b ∷ bs) st ≡ run durability m bs st'
unfolding run
run-silent durability m b bs st st' e = cc

run-reports :
    (durability : ℕ) (m : TrendMetric) (b : Band) (st st' : TrendState) (t : Trend)
    → observe_metric durability m b st ≡ (st', some t)
    → run durability m (b ∷ []) st ≡ (st', t ∷ [])
unfolding run
run-reports durability m b st st' t e = cc

module _ (durability : ℕ) (m : TrendMetric) (c b : Band) (mb : b ≢ unmeasured) (mc : c ≢ unmeasured)
    (ne : b ≢ c) where
  leaving-waits :
      (k : ℕ)
      → k + 1 < durability
      → observe_metric durability m b (leaving c b k) ≡ (leaving c b (k + 1), none)
  unfolding observe_metric
  leaving-waits k h = ground arith

  leaving-crosses :
      (k : ℕ)
      → k + 1 ≡ durability
      → observe_metric durability m b (leaving c b k) ≡ (settled b, some (crossed m c b durability))
  unfolding observe_metric
  leaving-crosses k h = ground arith

  settled-leaves :
      observe_metric durability m b (settled c) ≡ observe_metric durability m b (leaving c b 0)
  unfolding observe_metric
  settled-leaves = ground arith

  run-leaving :
      (n k : ℕ)
      → k + suc n ≡ durability
      → run durability m (replicate (suc n) b) (leaving c b k)
        ≡ (settled b, crossed m c b durability ∷ [])
  run-leaving zero k e =
      run-reports durability m b (leaving c b k) (settled b) (crossed m c b durability)
        (leaving-crosses k (omega arith))
  run-leaving (suc n) k e =
      run-silent durability m b (replicate (suc n) b) (leaving c b k) (leaving c b (k + 1))
        (leaving-waits k (omega arith))
      ∙ run-leaving n (k + 1) (omega arith)

  run-settled :
      (bs : List Band)
      → run durability m (b ∷ bs) (settled c) ≡ run durability m (b ∷ bs) (leaving c b 0)
  unfolding run
  run-settled bs = rw settled-leaves

-- From a confirmed band, as many turns in another measured band as the durability asks report
-- exactly one trend, at the last of them, and confirm the new band.
pub run-crosses :
    (n : ℕ) (m : TrendMetric) (c b : Band)
    → b ≢ unmeasured
    → c ≢ unmeasured
    → b ≢ c
    → run (suc n) m (replicate (suc n) b) (settled c) ≡ (settled b, crossed m c b (suc n) ∷ [])
run-crosses n m c b mb mc ne =
    run-settled (suc n) m c b mb mc ne (replicate n b)
    ∙ run-leaving (suc n) m c b mb mc ne n 0 (omega arith)
