-- ===== src/Compare/Widening.antt =====
-- router/adapt.py: the loop of `candidate_superset` ends.
use synno_db.Base.{
  ℕ, zero, suc, ◌+◌, ◌*◌, ◌≤◌, ◌<◌, ◌≡◌, refl, ap, ◌∙◌, true, false, Option, none, some, List,
  arith, leb,
}
use synno_db.Python.{Float, PythonOps}
use synno_db.Compare.Cells.{Row, Table, rows}
use synno_db.Compare.Widen.{strict, max_widen_factor, judge, widen, widen_fuel}

-- limit, doubled so many times
unfoldable pub doubled : ℕ → ℕ → ℕ
doubled zero limit = limit
doubled (suc n) limit = doubled n (limit * 2)

module _ (py : PythonOps) (tol : Float) (fetch : ℕ → Option Table) (order_keys : List ℕ)
    (last_key : Row) (window : ℕ) where
  widen_over :
      (fuel limit : ℕ)
      → window * max_widen_factor < limit
      → widen py tol fetch order_keys last_key window fuel limit ≡ strict
  unfolding widen
  widen_over zero limit h = refl
  widen_over (suc fuel) limit h =
      let past : leb limit (window * max_widen_factor) ≡ false = ground (arith, h) in
      rw (past, widen) refl

  widen-add :
      (fuel more limit : ℕ)
      → window * max_widen_factor < doubled fuel limit
      → widen py tol fetch order_keys last_key window (fuel + more) limit
        ≡ widen py tol fetch order_keys last_key window fuel limit
  unfolding widen doubled
  widen-add zero more limit h = widen_over (0 + more) limit h
  widen-add (suc fuel) more limit h =
      let step : suc fuel + more ≡ suc (fuel + more) = omega arith in
      ap (λ rounds. widen py tol fetch order_keys last_key window rounds limit) step
      ∙ ap
          (λ again. elim (leb limit (window * max_widen_factor)) [
            | false ↦ strict
            | true ↦ elim (fetch (limit * 2)) [
              | none ↦ strict
              | some widened ↦ judge py tol order_keys last_key (limit * 2) (rows widened) again
            ]
          ])
          (widen-add fuel more (limit * 2) h)

  -- The rounds given to the loop are enough: with any more of them it has the same result.
  pub widen_fuel_lem :
      (more : ℕ)
      → 1 ≤ window
      → widen py tol fetch order_keys last_key window (widen_fuel + more) window
        ≡ widen py tol fetch order_keys last_key window widen_fuel window
  unfolding doubled
  widen_fuel_lem more h = widen-add widen_fuel more window (omega arith)
