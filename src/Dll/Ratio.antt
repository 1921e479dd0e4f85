-- ===== src/Dll/Ratio.antt =====
-- The ratio and the error of the host side in src/dll.c.
use overwitch.Prelude.{◌≡◌, ◌⊎◌, true, false, arith}
use overwitch.Numeric.{Doubles}
use overwitch.Dll.{Dll, host_update, is_tuned}

module _ (N : Doubles) where
  open N use {Double, lt, lt_irrefl, of_uint, abs_int}

  -- Where the upper bound is not below the lower one, the ratio after an update lies between the
  -- two.
  host_update_bounds :
      (dll : Dll N)
      → lt dll.max_ratio dll.min_ratio ≡ false
      → let d = (host_update N dll).0 in
        (lt d.max_ratio d.ratio ≡ false) × (lt d.ratio d.min_ratio ≡ false)
  unfolding host_update
  host_update_bounds dll h = ground (arith, lt_irrefl dll.max_ratio, lt_irrefl dll.min_ratio)

  -- An update either reports an error, and then the ratio is one of the two bounds, or reports
  -- none, and then the ratio is what the filter gives and is beyond neither bound.
  host_update_reports :
      (dll : Dll N)
      → let (d, e) = host_update N dll in
        ((e ≡ true) × ((d.ratio ≡ dll.max_ratio) ⊎ (d.ratio ≡ dll.min_ratio)))
        ⊎ ((e ≡ false)
            × (d.ratio ≡ N.sub (N.sub (N.lit 1 1) d.z2) d.z3)
            × (lt dll.max_ratio d.ratio ≡ false)
            × (lt d.ratio dll.min_ratio ≡ false))
  unfolding host_update
  host_update_reports dll = ground arith

  -- Every error that `(int)` cuts to 0 counts as tuned, for each threshold that is above 0.
  is_tuned_below_one :
      (dll : Dll N) (threshold : Double)
      → abs_int dll.err ≡ 0
      → lt (of_uint 0) threshold ≡ true
      → is_tuned N dll threshold ≡ true
  unfolding is_tuned
  is_tuned_below_one dll threshold h k = rw (h, is_tuned) k
