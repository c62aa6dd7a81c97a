-- ===== src/Metrics/Aggregations/Balance.antt =====
-- The loops of `Med` in src/metrics/aggregations.h that move values between its two queues.
use nimlib.Prelude.{
  ℕ, zero, suc, ◌+◌, ◌-◌, ◌*◌, ◌/◌, ◌%◌, ◌≤◌, ◌≡◌, refl, Option, some, List, [], ◌∷◌, arith, length,
  Bool-cases, inl, inr, ltb, ℕ_discrete,
}
use nimlib.Prelude.Int.{ℤ}
use nimlib.Metrics.Aggregations.{Med, fill_less, fill_more, rebalance}
use nimlib.Metrics.Aggregations.Queues.{
  High, Low, IsSorted, IsSplit, joined, IsSorted-IsSplit, push_more-top, push_less-top,
}

-- A loop that moves values between the queues ends with the same values, and with the sizes wanted.
pub record Moved (d : ℕ) (less more : List ℤ) (out : Option Med) : Type 0 where
  pub s : Med
  pub returns : out ≡ some s
  pub same : joined s.less s.more ≡ joined less more
  pub sizes : length s.less ≡ length s.more + d

IsSplit-Low : (less : List ℤ) (x : ℤ) (more : List ℤ) → IsSplit less (x ∷ more) → Low x less
IsSplit-Low [] x more s = tt
IsSplit-Low (y ∷ ys) x more s = s.meets

IsSplit-High : (x : ℤ) (less more : List ℤ) → IsSplit (x ∷ less) more → High x more
IsSplit-High x less more s = s.meets

fill_less-Moved :
    (d k : ℕ) (more less : List ℤ)
    → d ≤ 1
    → IsSorted (joined less more)
    → length less + 2 * k ≡ length more + d
    → Moved d less more (fill_less d less more)
unfolding fill_less joined
fill_less-Moved d k [] less o h e = record {
  s = record { less = less; more = [] };
  returns = ground arith;
  same = refl;
  sizes = omega arith;
}
fill_less-Moved d zero (x ∷ more) less o h e = record {
  s = record { less = less; more = x ∷ more };
  returns = ground arith;
  same = refl;
  sizes = omega arith;
}
fill_less-Moved d (suc k) (x ∷ more) less o h e =
    let low = IsSplit-Low less x more (IsSorted-IsSplit less (x ∷ more) h) in
    let ih = fill_less-Moved d k more (x ∷ less) o h (omega arith) in
    record {
      s = ih.s;
      returns = rw (push_less-top x less low) (ground (arith, ih.returns));
      same = ih.same;
      sizes = ih.sizes;
    }

fill_more-Moved :
    (d k : ℕ) (less more : List ℤ)
    → IsSorted (joined less more)
    → length less ≡ length more + d + 2 * k
    → Moved d less more (fill_more d less more)
unfolding fill_more joined
fill_more-Moved d k [] more h e = record {
  s = record { less = []; more = more };
  returns = ground arith;
  same = refl;
  sizes = omega arith;
}
fill_more-Moved d zero (x ∷ less) more h e = record {
  s = record { less = x ∷ less; more = more };
  returns = ground arith;
  same = refl;
  sizes = omega arith;
}
fill_more-Moved d (suc k) (x ∷ less) more h e =
    let high = IsSplit-High x less more (IsSorted-IsSplit (x ∷ less) more h) in
    let ih = fill_more-Moved d k less (x ∷ more) h (omega arith) in
    record {
      s = ih.s;
      returns = rw (push_more-top x more high) (ground (arith, ih.returns));
      same = ih.same;
      sizes = ih.sizes;
    }

-- Behind `involve` the lower half holds as many values as the upper half, or one more.
pub rebalance-Moved :
    (less more : List ℤ)
    → IsSorted (joined less more)
    → Moved ((length less + length more) % 2) less more (rebalance less more)
unfolding rebalance
rebalance-Moved less more h = elim (ℕ_discrete ((length less + length more) % 2) 0) [
  | yes even ↦ rw even (elim (Bool-cases (ltb (length less) (length more))) [
    | inl a ↦ rw a (
        fill_less-Moved 0 ((length more - length less) / 2) more less (omega arith) h
          (ground arith))
    | inr a ↦ rw a (elim (Bool-cases (ltb (length more) (length less))) [
      | inl b ↦
          rw b (fill_more-Moved 0 ((length less - length more) / 2) less more h (ground arith))
      | inr b ↦ rw b (settled 0 (ground arith))
    ])
  ])
  | no odd ↦
      let one : (length less + length more) % 2 ≡ 1 = omega arith in
      rw one (elim (Bool-cases (ltb (length less) (length more + 1))) [
        | inl a ↦ rw a (
            fill_less-Moved 1 ((length more + 1 - length less) / 2) more less (omega arith) h
              (ground arith))
        | inr a ↦ rw a (elim (Bool-cases (ltb (length more + 1) (length less))) [
          | inl b ↦
              rw b
                (fill_more-Moved 1 ((length less - length more - 1) / 2) less more h (ground arith))
          | inr b ↦ rw b (settled 1 (ground arith))
        ])
      ])
]
  where
    settled :
        (d : ℕ)
        → length less ≡ length more + d
        → Moved d less more (some (record { less = less; more = more }))
    settled d e = record {
      s = record { less = less; more = more };
      returns = refl;
      same = refl;
      sizes = e;
    }
