-- ===== src/Scheduler/Queue/Throughput.antt =====
-- The moving average that a completion folds a sample into.
use native.Mathlib.Nat.{mul-le-mul_right}
use control_deck.Prelude.{ℕ, suc, ap, sym, ◌+◌, ◌*◌, ◌-◌, ◌≤◌, ◌≡◌, some, arith}
use control_deck.Prelude.Fraction.{Fraction, den, Le, add, mul}
use control_deck.Scheduler.Queue.{average}

-- The weights add up to 1.
weights :
    (alpha : Fraction) → alpha.num ≤ den alpha → alpha.num + (den alpha - alpha.num) ≡ den alpha
weights alpha h = omega arith

module _ (a b p : ℕ) (total : a + b ≡ suc p) (old sample : Fraction) where
  weighted : Fraction
  weighted =
      add (mul (record { num = b; pred_den = p }) old)
        (mul (record { num = a; pred_den = p }) sample)

  scaled :
      suc p * (suc p * (old.num * (den old * den sample)))
      ≡ (a + b) * (suc p * (old.num * (den old * den sample)))
  scaled = ap (λ (t : ℕ). t * (suc p * (old.num * (den old * den sample)))) (sym total)

  scaled' :
      suc p * (suc p * (sample.num * (den old * den sample)))
      ≡ (a + b) * (suc p * (sample.num * (den old * den sample)))
  scaled' = ap (λ (t : ℕ). t * (suc p * (sample.num * (den old * den sample)))) (sym total)

  above_old : Le old sample → Le old weighted
  unfolding weighted
  above_old h = omega (arith, scaled, mul-le-mul_right (den old * (suc p * a)) h)

  below_sample : Le old sample → Le weighted sample
  unfolding weighted
  below_sample h = omega (arith, scaled', mul-le-mul_right (den sample * (suc p * b)) h)

  below_old : Le sample old → Le weighted old
  unfolding weighted
  below_old h = omega (arith, scaled, mul-le-mul_right (den old * (suc p * a)) h)

  above_sample : Le sample old → Le sample weighted
  unfolding weighted
  above_sample h = omega (arith, scaled', mul-le-mul_right (den sample * (suc p * b)) h)

  none_new : a ≤ 0 → Le weighted old × Le old weighted
  unfolding weighted
  none_new z =
      let no_sample = mul-le-mul_right (sample.num * (suc p * (den old * den old))) z in
      let no_old = mul-le-mul_right (suc p * (old.num * (den old * den sample))) z in
      (omega (arith, scaled, no_sample, no_old), omega (arith, scaled, no_sample, no_old))

  all_new : b ≤ 0 → Le weighted sample × Le sample weighted
  unfolding weighted
  all_new z =
      let no_old = mul-le-mul_right (old.num * (suc p * (den sample * den sample))) z in
      let no_sample = mul-le-mul_right (suc p * (sample.num * (den old * den sample))) z in
      (omega (arith, scaled', no_sample, no_old), omega (arith, scaled', no_sample, no_old))

-- For a weight of at most 1 the new average lies between the old one and the sample, whichever is
-- the larger. The weight is that of the sample: with 0 the old average stays, with 1 the sample
-- takes its place.
pub average_bounds :
    (alpha old sample : Fraction)
    → alpha.num ≤ den alpha
    → let new = average alpha (some old) sample in
      (Le old sample → Le old new × Le new sample)
      × (Le sample old → Le sample new × Le new old)
      × (alpha.num ≡ 0 → Le new old × Le old new)
      × (alpha.num ≡ den alpha → Le new sample × Le sample new)
unfolding average weighted
average_bounds alpha old sample h =
    let b = den alpha - alpha.num in
    let w = weights alpha h in
    (
      λ k. (
        above_old alpha.num b alpha.pred_den w old sample k,
        below_sample alpha.num b alpha.pred_den w old sample k,
      ),
      λ k. (
        above_sample alpha.num b alpha.pred_den w old sample k,
        below_old alpha.num b alpha.pred_den w old sample k,
      ),
      λ z. none_new alpha.num b alpha.pred_den w old sample (omega arith),
      λ z. all_new alpha.num b alpha.pred_den w old sample (omega arith),
    )
