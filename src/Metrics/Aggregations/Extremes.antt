-- ===== src/Metrics/Aggregations/Extremes.antt =====
-- `Max`, `Min`, `Avg` and `AvgRatePerSecond` of src/metrics/aggregations.h over a history of values.
use nimlib.Prelude.{
  ◌/◌, ℕ, zero, suc, ◌+◌, ◌-◌, ◌≤◌, ◌≡◌, refl, sym, ap, ◌∙◌, ◌≢◌, ◌⊎◌, inl, inr, Bool, true, false,
  none, some, List, [], ◌∷◌, arith, length, All, foldl, if◌then◌else◌, ◌==◌,
}
use nimlib.Prelude.Int.{ℤ, pos, pos_part, neg_part, ◌≤ℤ◌, ◌+ℤ◌, div_ℤ, eq_of_parts, +ℤ_parts}
use nimlib.Utils.Timer
use nimlib.Utils.Timer.{Timer}
use nimlib.Metrics.Aggregations.{
  long_min, long_max, increment_involve, sum_involve, max_involve, min_involve, Avg, avg_involve,
  avg_get_val, AvgRatePerSecond, rate_new, rate_involve, rate_get_val, is_zero,
}

-- Where a value stands in a history.
abbrev pub Among : ℤ → List ℤ → Type 0
Among m [] = ⊥
Among m (x ∷ xs) = (m ≡ x) ⊎ Among m xs

max_from :
    (xs : List ℤ) (max : ℤ)
    → let m = foldl max_involve max xs in
      (max ≤ℤ m) × All (λ x. x ≤ℤ m) xs × ((m ≡ max) ⊎ Among m xs)
max_from [] max = (omega arith, tt, inl refl)
max_from (x ∷ xs) max =
    let (low, all, from) = max_from xs (max_involve max x) in
    let (a, b, c) = step max x in (omega arith, (omega arith, all), ground (arith, from, c))
  where
    step :
        (max x : ℤ)
        → (max ≤ℤ max_involve max x)
          × (x ≤ℤ max_involve max x)
          × ((max_involve max x ≡ max) ⊎ (max_involve max x ≡ x))
    step max x = (
      unfold max_involve in ground arith,
      unfold max_involve in ground arith,
      unfold max_involve in ground arith,
    )

min_from :
    (xs : List ℤ) (min : ℤ)
    → let m = foldl min_involve min xs in
      (m ≤ℤ min) × All (λ x. m ≤ℤ x) xs × ((m ≡ min) ⊎ Among m xs)
min_from [] min = (omega arith, tt, inl refl)
min_from (x ∷ xs) min =
    let (low, all, from) = min_from xs (min_involve min x) in
    let (a, b, c) = step min x in (omega arith, (omega arith, all), ground (arith, from, c))
  where
    step :
        (min x : ℤ)
        → (min_involve min x ≤ℤ min)
          × (min_involve min x ≤ℤ x)
          × ((min_involve min x ≡ min) ⊎ (min_involve min x ≡ x))
    step min x = (
      unfold min_involve in ground arith,
      unfold min_involve in ground arith,
      unfold min_involve in ground arith,
    )

-- `Max` gives the greatest of the values that it has received, if there are any and none is below
-- the range of `long`.
pub max_lem :
    (xs : List ℤ)
    → xs ≢ []
    → All (λ x. long_min ≤ℤ x) xs
    → let m = foldl max_involve long_min xs in All (λ x. x ≤ℤ m) xs × Among m xs
max_lem [] ne range = absurd (ne refl)
max_lem (x ∷ xs) ne range = (
  all,
  elim from [
    | inr among ↦ among
    | inl lowest ↦
        inl
          (eq_of_parts _ _ (omega (arith, ap pos_part lowest, ap neg_part lowest, all.0, range.0)))
  ],
)
  where
    all : All (λ y. y ≤ℤ foldl max_involve long_min (x ∷ xs)) (x ∷ xs)
    all = (max_from (x ∷ xs) long_min).1

    from :
        (foldl max_involve long_min (x ∷ xs) ≡ long_min)
        ⊎ Among (foldl max_involve long_min (x ∷ xs)) (x ∷ xs)
    from = (max_from (x ∷ xs) long_min).2

-- `Min` gives the least of the values that it has received, if there are any and none is above the
-- range of `long`.
pub min_lem :
    (xs : List ℤ)
    → xs ≢ []
    → All (λ x. x ≤ℤ long_max) xs
    → let m = foldl min_involve long_max xs in All (λ x. m ≤ℤ x) xs × Among m xs
min_lem [] ne range = absurd (ne refl)
min_lem (x ∷ xs) ne range = (
  all,
  elim from [
    | inr among ↦ among
    | inl highest ↦
        inl (
          eq_of_parts _ _ (omega (arith, ap pos_part highest, ap neg_part highest, all.0, range.0)))
  ],
)
  where
    all : All (λ y. foldl min_involve long_max (x ∷ xs) ≤ℤ y) (x ∷ xs)
    all = (min_from (x ∷ xs) long_max).1

    from :
        (foldl min_involve long_max (x ∷ xs) ≡ long_max)
        ⊎ Among (foldl min_involve long_max (x ∷ xs)) (x ∷ xs)
    from = (min_from (x ∷ xs) long_max).2

abbrev pub total : List ℤ → ℤ
total [] = pos 0
total (x ∷ xs) = x +ℤ total xs

add_zero : (a : ℤ) → a +ℤ pos 0 ≡ a
add_zero a = eq_of_parts _ _ (omega (arith, +ℤ_parts a (pos 0)))

add_assoc : (a b c : ℤ) → (a +ℤ b) +ℤ c ≡ a +ℤ (b +ℤ c)
add_assoc a b c =
    eq_of_parts _ _
      (omega (arith, +ℤ_parts a b, +ℤ_parts (a +ℤ b) c, +ℤ_parts b c, +ℤ_parts a (b +ℤ c)))

avg_eq : (a b : Avg) → a.increment ≡ b.increment → a.sum ≡ b.sum → a ≡ b
avg_eq a b p q = λ i. record { increment = p i; sum = q i }

count_up : (n : ℕ) → increment_involve (pos n) (pos 1) ≡ pos (n + 1)
unfolding increment_involve ◌+ℤ◌
count_up n = ground arith

-- The number of values and their sum.
avg_all :
    (xs : List ℤ) (n : ℕ) (s : ℤ)
    → foldl avg_involve (record { increment = pos n; sum = s }) xs
      ≡ record { increment = pos (n + length xs); sum = s +ℤ total xs }
unfolding avg_involve sum_involve
avg_all [] n s = avg_eq _ _ (ap pos (omega arith)) (sym (add_zero s))
avg_all (x ∷ xs) n s =
    rw (count_up n)
      (avg_all xs (n + 1) (s +ℤ x) ∙ avg_eq _ _ (ap pos (omega arith)) (add_assoc s x (total xs)))

-- `Avg` gives no value before the first one received, and then the sum of the values divided by
-- their number, towards zero.
pub avg_lem :
    (xs : List ℤ)
    → avg_get_val (foldl avg_involve (record { increment = pos 0; sum = pos 0 }) xs)
      ≡ (if length xs == 0 then none else some (div_ℤ (total xs) (pos (length xs))))
unfolding avg_get_val
avg_lem xs =
    ap avg_get_val (avg_all xs 0 (pos 0))
    ∙ rw (zero_add (total xs), zero_add_ℕ) (by_length xs (length xs) refl)
  where
    zero_add_ℕ : 0 + length xs ≡ length xs
    zero_add_ℕ = omega arith

    zero_add : (a : ℤ) → pos 0 +ℤ a ≡ a
    zero_add a = eq_of_parts _ _ (omega (arith, +ℤ_parts (pos 0) a))

    by_length :
        (ys : List ℤ) (n : ℕ)
        → n ≡ length ys
        → (if is_zero (pos n) then none else some (div_ℤ (total ys) (pos n)))
          ≡ (if n == 0 then none else some (div_ℤ (total ys) (pos n)))
    by_length ys zero e = refl
    by_length ys (suc n) e = ground arith

-- A value that a rate receives, with the two readings of the clock.
pub record Sample : Type 0 where
  pub value : ℤ
  pub ended : ℕ
  pub begun : ℕ

-- The clock does not go back from `t` on.
abbrev pub IsOrderly : ℕ → List Sample → Type 0
IsOrderly t [] = Unit
IsOrderly t (x ∷ xs) = (t ≤ x.ended) × (x.ended ≤ x.begun) × IsOrderly x.begun xs

-- When the last measurement began, and the time between the two readings of each call.
abbrev pub last_begun : ℕ → List Sample → ℕ
last_begun t [] = t
last_begun t (x ∷ xs) = last_begun x.begun xs

abbrev pub gaps : List Sample → ℕ
gaps [] = 0
gaps (x ∷ xs) = x.begun - x.ended + gaps xs

abbrev pub values : List Sample → List ℤ
values [] = []
values (x ∷ xs) = x.value ∷ values xs

-- Each call of `involve`, and whether all have received their value.
pub rate_all : List Sample → AvgRatePerSecond → AvgRatePerSecond × Bool
rate_all [] a = (a, true)
rate_all (x ∷ xs) a =
    let (a', received) = rate_involve a x.value x.ended x.begun in
    let (a'', others) = rate_all xs a' in (a'', if received then others else false)

abbrev running : ℕ → ℕ → ℤ → AvgRatePerSecond
running start d c = record {
  timer = record { start_point = start; timing = true };
  duration = pos d;
  count = c;
}

rate_involve-running :
    (start d : ℕ) (c : ℤ) (x : Sample)
    → rate_involve (running start d c) x.value x.ended x.begun
      ≡ (running x.begun (d + (x.ended - start)) (c +ℤ x.value), true)
unfolding rate_involve Timer.begin Timer.end sum_involve ◌+ℤ◌
rate_involve-running start d c x = ground arith

running_eq : {s t d e : ℕ} {c f : ℤ} → s ≡ t → d ≡ e → c ≡ f → running s d c ≡ running t e f
running_eq p q r = λ i. record {
  timer = record { start_point = p i; timing = true };
  duration = pos (q i);
  count = r i;
}

gaps_within :
    (xs : List Sample) (start : ℕ) → IsOrderly start xs → start + gaps xs ≤ last_begun start xs
gaps_within [] start h = omega arith
gaps_within (x ∷ xs) start h = omega (arith, gaps_within xs x.begun h.2)

rate_all-running :
    (xs : List Sample) (start d : ℕ) (c : ℤ)
    → IsOrderly start xs
    → rate_all xs (running start d c) ≡ (
      running
          (last_begun start xs)
          (d + (last_begun start xs - start - gaps xs))
          (c +ℤ total (values xs)),
      true,
    )
unfolding rate_all
rate_all-running [] start d c h =
    ap (λ a. (a, true)) (running_eq refl (omega arith) (sym (add_zero c)))
rate_all-running (x ∷ xs) start d c h = rw (rate_involve-running start d c x) (
    rw (rate_all-running xs x.begun (d + (x.ended - start)) (c +ℤ x.value) h.2) (
      ap (λ a. (a, true))
        (running_eq refl (omega (arith, gaps_within xs x.begun h.2))
          (add_assoc c x.value (total (values xs))))))

-- A rate made and begun at the time `begun` receives all values of a clock that does not go back. It
-- gives no value before a whole second has been measured, and then the sum of the values divided by
-- the whole seconds measured: those since `begun`, without the time between the two readings of each
-- call.
pub rate_lem :
    (made begun : ℕ) (xs : List Sample)
    → IsOrderly begun xs
    → let (a, received) = rate_all xs (rate_new made begun) in
      let seconds = (last_begun begun xs - begun - gaps xs) / 1000000000 in
      (received ≡ true)
      × (rate_get_val a
          ≡ (if seconds == 0 then none else some (div_ℤ (total (values xs)) (pos seconds))))
unfolding rate_new rate_get_val Timer.begin Timer.new div_ℤ
rate_lem made begun xs h =
    rw (rate_all-running xs begun 0 (pos 0) h, add_zero_left (total (values xs)), left)
      (refl, ground arith)
  where
    left : 0 + (last_begun begun xs - begun - gaps xs) ≡ last_begun begun xs - begun - gaps xs
    left = omega arith

    add_zero_left : (a : ℤ) → pos 0 +ℤ a ≡ a
    add_zero_left a = eq_of_parts _ _ (omega (arith, +ℤ_parts (pos 0) a))
