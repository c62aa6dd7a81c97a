-- ===== src/Utils/CircularArray/Tests.antt =====
-- A ring of src/utils/circular_array.h that has wrapped around.
use nimlib.Prelude.{ℕ, ◌≡◌, refl, [], ◌∷◌, ◌++◌, arith, ltb, if◌then◌else◌, drop, foldl}
use nimlib.Utils.CircularArray.{CircularArray, new, push_back, at, read_back, copy_loop, copy}
use nimlib.Utils.CircularArray.Window.{IsValid, copy-push_back}
use nimlib.Utils.CircularArray.History.{copy-push_all}

ring : Unit {0}
unfolding new push_back at read_back copy_loop copy
ring = tt

-- After 5, 6 and 7 with capacity 2.
abbrev wrapped : CircularArray ℕ
wrapped = record { capacity = 2; array = 7 ∷ 6 ∷ []; next = 1; fill_count = 2 }

wrapped-IsValid : IsValid wrapped
wrapped-IsValid = record {
  sized = refl;
  next_in = omega arith;
  filled = omega arith;
  from_start = λ h. absurd (omega arith);
}

pushes :
    (foldl (push_back {T = ℕ} 0) (new 0 2) (5 ∷ 6 ∷ 7 ∷ []) ≡ wrapped)
    × (copy 0 wrapped ≡ 6 ∷ 7 ∷ [])
    × (at 0 wrapped 0 ≡ 6)
unfolding ring
pushes = (refl, refl, refl)

copy-push_all_example : copy {T = ℕ} 0 (foldl (push_back 0) (new 0 2) (5 ∷ 6 ∷ 7 ∷ [])) ≡ 6 ∷ 7 ∷ []
copy-push_all_example = copy-push_all {T = ℕ} 0 2 (5 ∷ 6 ∷ 7 ∷ []) (omega arith)

copy-push_back_example :
    copy 0 (push_back 0 wrapped 8)
    ≡ (if ltb 2 2 then copy 0 wrapped else drop 1 (copy 0 wrapped)) ++ 8 ∷ []
copy-push_back_example = copy-push_back 0 wrapped 8 wrapped-IsValid
