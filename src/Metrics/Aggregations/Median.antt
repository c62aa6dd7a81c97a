-- ===== src/Metrics/Aggregations/Median.antt =====
-- `Med` of src/metrics/aggregations.h gives the lower median of the values that it has received.
use nimlib.Prelude.{
  append-nil, ℕ, suc, ◌+◌, ◌-◌, ◌/◌, ◌%◌, ◌^◌, ◌≤◌, ◌<◌, ◌≡◌, refl, sym, ap, subst, ◌∙◌, ◌≢◌,
  Option, none, some, List, [], ◌∷◌, ◌++◌, arith, length, get_or, length-append, All, Bool-cases,
  inl, inr, get_or-append_left, foldl,
}
use nimlib.Prelude.Int.{ℤ, pos, ◌≤ℤ◌, leb_ℤ}
use nimlib.Metrics.Aggregations.{
  long_min, push_more, push_less, Med, med_new, push_first, med_involve, med_get_val, top,
}
use nimlib.Metrics.Aggregations.Queues.{
  High, IsSorted, joined, IsSorted-IsSplit, push_more-IsSorted, push_more-behind, push_more-perm,
  joined-push_more, joined-push_less, length-push_more,
}
use mathlib.Core.List.{Perm, perm_middle}
use mathlib.Core.List.Perm
use nimlib.Metrics.Aggregations.Balance.{rebalance-Moved, Moved}

-- Two queues that hold `values` in order, the lower as many as the upper or one more.
pub record Holds (values : List ℤ) (s : Med) : Type 0 where
  pub same : joined s.less s.more ≡ values
  pub sizes : length s.less ≡ length s.more + length values % 2

length-joined : (less more : List ℤ) → length (joined less more) ≡ length less + length more
unfolding joined
length-joined [] more = omega arith
length-joined (x ∷ less) more = omega (arith, length-joined less (x ∷ more))

Moved-Holds :
    (less more values : List ℤ) {out : Option Med}
    → joined less more ≡ values
    → Moved ((length less + length more) % 2) less more out
    → (s : Med) × (out ≡ some s) × Holds values s
Moved-Holds less more values e m = (
  m.s,
  m.returns,
  record {
    same = m.same ∙ e;
    sizes =
        m.sizes ∙ ap (λ n. length m.s.more + n % 2) (sym (length-joined less more) ∙ ap length e);
  },
)

push_first-Holds :
    (less more values : List ℤ) (m : ℤ)
    → IsSorted values
    → less ≢ []
    → joined less more ≡ values
    → (s : Med) × (push_first less more m ≡ some s) × Holds (push_more m values) s
push_first-Holds [] more values m h ne e = absurd (ne refl)
push_first-Holds (x ∷ less) more values m h ne e =
    let split = IsSorted-IsSplit (x ∷ less) more (subst IsSorted (sym e) h) in
    elim (Bool-cases (leb_ℤ m x)) [
      | inl t ↦
          let j : joined (push_less m (x ∷ less)) more ≡ push_more m values =
            joined-push_less (x ∷ less) more m split (above m more split.meets (ground arith))
            ∙ ap (push_more m) e in
          rw t (
            Moved-Holds (push_less m (x ∷ less)) more (push_more m values) j (
              rebalance-Moved (push_less m (x ∷ less)) more
                (subst IsSorted (sym j) (push_more-IsSorted m values h))))
      | inr f ↦
          let j : joined (x ∷ less) (push_more m more) ≡ push_more m values =
            joined-push_more (x ∷ less) more m split (ground arith) ∙ ap (push_more m) e in
          rw f (
            Moved-Holds (x ∷ less) (push_more m more) (push_more m values) j (
              rebalance-Moved (x ∷ less) (push_more m more)
                (subst IsSorted (sym j) (push_more-IsSorted m values h))))
    ]
  where
    above : (m : ℤ) (ys : List ℤ) → High x ys → m ≤ℤ x → High m ys
    above m [] k l = tt
    above m (y ∷ ys) k l = omega arith

-- `involve` of one value after another.
abbrev then_all : (Med → Option Med) → Option Med → Option Med
then_all rest none = none
then_all rest (some s) = rest s

pub involve_all : List ℤ → Med → Option Med
involve_all [] s = some s
involve_all (x ∷ xs) s = then_all (involve_all xs) (med_involve s x)

pub med_involve-Holds :
    (s : Med) (values : List ℤ) (m : ℤ)
    → IsSorted values
    → 2 ≤ length values
    → Holds values s
    → (s' : Med) × (med_involve s m ≡ some s') × Holds (push_more m values) s'
unfolding med_involve
med_involve-Holds s values m sorted two h =
    push_first-Holds s.less s.more values m sorted
      (λ e.
        absurd (omega (arith, ap length e, h.sizes, length-joined s.less s.more, ap length h.same)))
      h.same

involve_all-Holds :
    (xs values : List ℤ) (s : Med)
    → IsSorted values
    → 2 ≤ length values
    → Holds values s
    → (s' : Med) × (involve_all xs s ≡ some s') × Holds (foldl (λ l x. push_more x l) values xs) s'
unfolding involve_all
involve_all-Holds [] values s sorted two h = (s, refl, h)
involve_all-Holds (x ∷ xs) values s sorted two h =
    let (s', e, h') = med_involve-Holds s values x sorted two h in
    rw e (
      involve_all-Holds xs (push_more x values) s' (push_more-IsSorted x values sorted)
        (omega (arith, length-push_more x values)) h')

-- The values between the two that the constructor puts in.
abbrev pub highest : ℤ
highest = pos (2 ^ 63 - 1 - 1)

abbrev pub InRange : ℤ → Type 0
InRange x = (long_min ≤ℤ x) × (x ≤ℤ highest)

push_more-append :
    (x : ℤ) (l : List ℤ)
    → x ≤ℤ highest
    → push_more x (l ++ highest ∷ []) ≡ push_more x l ++ highest ∷ []
unfolding push_more
push_more-append x [] h = ground arith
push_more-append x (y ∷ ys) h = ground (arith, push_more-append x ys h)

bounded_High : (l : List ℤ) → All InRange l → High long_min (l ++ highest ∷ [])
bounded_High [] a = omega arith
bounded_High (x ∷ xs) (a, r) = a.0

push_more-All : (x : ℤ) (l : List ℤ) → InRange x → All InRange l → All InRange (push_more x l)
unfolding push_more
push_more-All x [] h a = (h, tt)
push_more-All x (y ∷ ys) h (a, r) = elim (Bool-cases (leb_ℤ x y)) [
  | inl t ↦ rw t (h, (a, r))
  | inr f ↦ rw f (a, push_more-All x ys h r)
]

sorted_from : List ℤ → List ℤ → List ℤ
sorted_from l xs = foldl (λ k x. push_more x k) l xs

sorted_from-bounded :
    (xs l : List ℤ)
    → All InRange xs
    → All InRange l
    → sorted_from (long_min ∷ l ++ highest ∷ []) xs ≡ long_min ∷ sorted_from l xs ++ highest ∷ []
unfolding sorted_from
sorted_from-bounded [] l a b = refl
sorted_from-bounded (x ∷ xs) l (a, r) b =
    ap (λ k. foldl (λ k x. push_more x k) k xs)
      (sym (push_more-behind long_min x (l ++ highest ∷ []) a.0 (bounded_High l b))
        ∙ ap (λ k. long_min ∷ k) (push_more-append x l a.1))
    ∙ sorted_from-bounded xs (push_more x l) r (push_more-All x l a b)

get_or-joined :
    (less ys : List ℤ) (i : ℕ) (d : ℤ) → get_or (joined less ys) (length less + i) d ≡ get_or ys i d
unfolding joined
get_or-joined [] ys i d = ap (λ k. get_or ys k d) (omega arith)
get_or-joined (x ∷ less) ys i d =
    ap (λ k. get_or (joined less (x ∷ ys)) k d) (omega arith)
    ∙ get_or-joined less (x ∷ ys) (suc i) d

pub med_get_val-joined :
    (s : Med) (values : List ℤ)
    → Holds values s
    → 2 ≤ length values
    → med_get_val s ≡ some (get_or values ((length values + 1) / 2 - 1) (pos 0))
unfolding med_get_val joined
med_get_val-joined s values h two =
    top_lem s.less h.same (omega (arith, h.sizes, length-joined s.less s.more, ap length h.same))
  where
    top_lem :
        (less : List ℤ)
        → joined less s.more ≡ values
        → length less ≡ (length values + 1) / 2
        → top less ≡ some (get_or values ((length values + 1) / 2 - 1) (pos 0))
    top_lem [] e n = absurd (omega arith)
    top_lem (x ∷ less) e n = ap some (
        sym (get_or-joined less (x ∷ s.more) 0 (pos 0))
        ∙ ap (λ l. get_or l (length less + 0) (pos 0)) e
        ∙ ap (λ k. get_or values k (pos 0)) (omega arith))

sorted_from-perm : (xs l : List ℤ) → Perm (sorted_from l xs) (xs ++ l)
unfolding sorted_from
sorted_from-perm [] l = Perm.refl l
sorted_from-perm (x ∷ xs) l =
    Perm.trans (sorted_from-perm xs (push_more x l))
      (Perm.trans (Perm.append (Perm.refl xs) (push_more-perm x l)) (perm_middle xs l))

sorted_from-IsSorted : (xs l : List ℤ) → IsSorted l → IsSorted (sorted_from l xs)
unfolding sorted_from
sorted_from-IsSorted [] l h = h
sorted_from-IsSorted (x ∷ xs) l h =
    sorted_from-IsSorted xs (push_more x l) (push_more-IsSorted x l h)

length-sorted_from : (xs l : List ℤ) → length (sorted_from l xs) ≡ length xs + length l
unfolding sorted_from
length-sorted_from [] l = omega arith
length-sorted_from (x ∷ xs) l =
    omega (arith, length-sorted_from xs (push_more x l), length-push_more x l)

pub med_new-Holds : Holds (long_min ∷ highest ∷ []) med_new
unfolding med_new joined
med_new-Holds = record { same = refl; sizes = refl }

-- A new `Med` that receives the values `xs`, which are not none and lie in the range of `long` but
-- for its greatest number, ends each `involve`, and `get_val` then gives the lower median: the value
-- at the index (n - 1) / 2 of the n values in ascending order.
pub median_lem :
    (xs : List ℤ)
    → xs ≢ []
    → All InRange xs
    → (s : Med) × (sorted : List ℤ) × IsSorted sorted
      × Perm sorted xs
      × (involve_all xs med_new ≡ some s)
      × (med_get_val s ≡ some (get_or sorted ((length xs - 1) / 2) (pos 0)))
median_lem xs ne range =
    let l = sorted_from [] xs in
    let (s, e, h) =
      involve_all-Holds xs (long_min ∷ highest ∷ []) med_new (omega arith) (omega arith)
        med_new-Holds in
    let bounded : foldl (λ l x. push_more x l) (long_min ∷ highest ∷ []) xs
        ≡ long_min ∷ l ++ highest ∷ [] =
      unfold sorted_from in sorted_from-bounded xs [] range tt in
    (
      s,
      l,
      sorted_from-IsSorted xs [] tt,
      subst (Perm l) (append-nil xs) (sorted_from-perm xs []),
      e,
      med_get_val-joined s (long_min ∷ l ++ highest ∷ []) (subst (λ v. Holds v s) bounded h)
            (omega (arith, length-append l (highest ∷ [])))
          ∙ ap some (
              ap (λ k. get_or (long_min ∷ l ++ highest ∷ []) k (pos 0))
                (middle l (length-sorted_from xs []))
              ∙ get_or-append_left l (highest ∷ []) ((length xs - 1) / 2) (pos 0)
                  (below (length-sorted_from xs []) (nonempty xs ne))),
    )
  where
    nonempty : (ys : List ℤ) → ys ≢ [] → 0 < length ys
    nonempty [] n = absurd (n refl)
    nonempty (y ∷ ys) n = omega arith

    middle :
        (l : List ℤ)
        → length l ≡ length xs + 0
        → (length (long_min ∷ l ++ highest ∷ []) + 1) / 2 - 1 ≡ suc ((length xs - 1) / 2)
    middle l e = omega (arith, length-append l (highest ∷ []), nonempty xs ne)

    below : {n : ℕ} → n ≡ length xs + 0 → 0 < length xs → (length xs - 1) / 2 < n
    below e p = omega arith
