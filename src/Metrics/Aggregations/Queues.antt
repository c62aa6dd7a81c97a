-- ===== src/Metrics/Aggregations/Queues.antt =====
-- The two queues of `Med` in src/metrics/aggregations.h, as lists in order.
use nimlib.Prelude.{
  ◌+◌, ◌≡◌, refl, sym, ap, ◌∙◌, List, [], ◌∷◌, arith, length, Bool-cases, inl, inr,
}
use nimlib.Prelude.Int.{ℤ, ◌≤ℤ◌, leb_ℤ, eq_of_parts}
use nimlib.Metrics.Aggregations.{push_more, push_less}
use mathlib.Core.List.{Perm}
use mathlib.Core.List.Perm

-- No value of the list is below `x`, by its first value.
abbrev pub High : ℤ → List ℤ → Type 0
High x [] = Unit
High x (y ∷ ys) = x ≤ℤ y

abbrev pub Low : ℤ → List ℤ → Type 0
Low x [] = Unit
Low x (y ∷ ys) = y ≤ℤ x

abbrev pub IsSorted : List ℤ → Type 0
IsSorted [] = Unit
IsSorted (x ∷ xs) = High x xs × IsSorted xs

abbrev pub IsFalling : List ℤ → Type 0
IsFalling [] = Unit
IsFalling (x ∷ xs) = Low x xs × IsFalling xs

abbrev pub Meets : List ℤ → List ℤ → Type 0
Meets [] ys = Unit
Meets (x ∷ xs) ys = High x ys

-- All values in ascending order: the lower half is listed from its greatest value on.
unfoldable pub joined : List ℤ → List ℤ → List ℤ
joined [] more = more
joined (x ∷ less) more = joined less (x ∷ more)

pub record IsSplit (less more : List ℤ) : Type 0 where
  pub falling : IsFalling less
  pub sorted : IsSorted more
  pub meets : Meets less more

pub IsSorted-IsSplit : (less more : List ℤ) → IsSorted (joined less more) → IsSplit less more
unfolding joined
IsSorted-IsSplit [] more h = record { falling = tt; sorted = h; meets = tt }
IsSorted-IsSplit (x ∷ less) more h =
    let s = IsSorted-IsSplit less (x ∷ more) h in
    record { falling = (below less s.meets, s.falling); sorted = s.sorted.1; meets = s.sorted.0 }
  where
    below : (xs : List ℤ) → Meets xs (x ∷ more) → Low x xs
    below [] m = tt
    below (y ∷ ys) m = m

push_more-High : (x m : ℤ) (l : List ℤ) → x ≤ℤ m → High x l → High x (push_more m l)
unfolding push_more
push_more-High x m [] h k = h
push_more-High x m (y ∷ ys) h k = ground arith

pub push_more-IsSorted : (m : ℤ) (l : List ℤ) → IsSorted l → IsSorted (push_more m l)
unfolding push_more
push_more-IsSorted m [] h = (tt, tt)
push_more-IsSorted m (y ∷ ys) (k, h) = elim (Bool-cases (leb_ℤ m y)) [
  | inl t ↦ rw t (ground arith, (k, h))
  | inr f ↦ rw f (push_more-High y m ys (ground arith) k, push_more-IsSorted m ys h)
]

pub push_more-top : (m : ℤ) (l : List ℤ) → High m l → push_more m l ≡ m ∷ l
unfolding push_more
push_more-top m [] h = refl
push_more-top m (y ∷ ys) h = ground arith

-- A value that is not below `x` may be put behind it.
pub push_more-behind :
    (x m : ℤ) (l : List ℤ) → x ≤ℤ m → High x l → x ∷ push_more m l ≡ push_more m (x ∷ l)
push_more-behind x m l h k = elim (Bool-cases (leb_ℤ m x)) [
  | inr f ↦ unfold push_more in rw f
  | inl t ↦
      let e : m ≡ x = eq_of_parts m x (ground arith) in
      rw e (ap (λ r. x ∷ r) (push_more-top x l k) ∙ sym (push_more-top x (x ∷ l) (omega arith)))
]

pub push_less-top : (m : ℤ) (l : List ℤ) → Low m l → push_less m l ≡ m ∷ l
unfolding push_less
push_less-top m [] h = refl
push_less-top m (y ∷ ys) h = ground arith

pub push_more-perm : (m : ℤ) (l : List ℤ) → Perm (push_more m l) (m ∷ l)
unfolding push_more
push_more-perm m [] = Perm.refl (m ∷ [])
push_more-perm m (y ∷ ys) = elim (Bool-cases (leb_ℤ m y)) [
  | inl t ↦ rw t (Perm.refl (m ∷ y ∷ ys))
  | inr f ↦ rw f (Perm.trans (Perm.cons y (push_more-perm m ys)) (Perm.swap m y ys))
]

-- A value above the lower half is put among the upper half.
pub joined-push_more :
    (less more : List ℤ) (m : ℤ)
    → IsSplit less more
    → Low m less
    → joined less (push_more m more) ≡ push_more m (joined less more)
unfolding joined
joined-push_more [] more m s h = refl
joined-push_more (x ∷ less) more m s h = rw (push_more-behind x m more h s.meets) (
    joined-push_more less (x ∷ more) m
      (record {
        falling = s.falling.1;
        sorted = (s.meets, s.sorted);
        meets = meets less s.falling.0;
      })
      (lower less s.falling.0))
  where
    meets : (xs : List ℤ) → Low x xs → Meets xs (x ∷ more)
    meets [] k = tt
    meets (y ∷ ys) k = k

    lower : (xs : List ℤ) → Low x xs → Low m xs
    lower [] k = tt
    lower (y ∷ ys) k = ground arith

-- A value below the upper half is put among the lower half.
pub joined-push_less :
    (less more : List ℤ) (m : ℤ)
    → IsSplit less more
    → High m more
    → joined (push_less m less) more ≡ push_more m (joined less more)
unfolding joined push_less
joined-push_less [] more m s h = sym (push_more-top m more h)
joined-push_less (x ∷ less) more m s h = elim (Bool-cases (leb_ℤ x m)) [
  | inl t ↦ rw t (
      ap (joined (x ∷ less)) (sym (push_more-top m more h))
      ∙ joined-push_more (x ∷ less) more m s (ground arith))
  | inr f ↦ rw f (
      joined-push_less less (x ∷ more) m
        (record {
          falling = s.falling.1;
          sorted = (s.meets, s.sorted);
          meets = meets less s.falling.0;
        })
        (ground arith))
]
  where
    meets : (xs : List ℤ) → Low x xs → Meets xs (x ∷ more)
    meets [] k = tt
    meets (y ∷ ys) k = k

pub length-push_more : (m : ℤ) (l : List ℤ) → length (push_more m l) ≡ length l + 1
unfolding push_more
length-push_more m [] = omega arith
length-push_more m (y ∷ ys) = ground (arith, length-push_more m ys)

pub length-push_less : (m : ℤ) (l : List ℤ) → length (push_less m l) ≡ length l + 1
unfolding push_less
length-push_less m [] = omega arith
length-push_less m (y ∷ ys) = ground (arith, length-push_less m ys)
