-- ===== src/Http/Router/Targets.antt =====
-- The segments of a target are what the recursive members of src/http/router.cpp cut off in turn.
use nimlib.Prelude.{
  ℕ, ◌≡◌, refl, sym, ap, ◌∙◌, inl, inr, ◌≢◌, false, List, [], ◌∷◌, ◌++◌, arith, ◌==◌, Bool-cases,
  All,
}
use nimlib.Prelude.Text.{Text}
use nimlib.Http.Router.{slash, target_segment, target_rest, segments, prepend, ends_with}

-- A target that is not empty has its text up to the first slash as its first segment, and the
-- segments of the text behind that slash as the others.
pub segments_lem : (s : Text) → s ≢ [] → segments s ≡ target_segment s ∷ segments (target_rest s)
unfolding segments target_segment target_rest
segments_lem [] h = absurd (h refl)
segments_lem (c ∷ []) h = ground arith
segments_lem (c ∷ (d ∷ s)) h = ground (arith, segments_lem (d ∷ s))

-- A segment that is matched against holds no slash.
pub segments-no_slash : (s : Text) → All (All (λ c. (c == slash) ≡ false)) (segments s)
unfolding segments
segments-no_slash [] = tt
segments-no_slash (c ∷ s) = elim (Bool-cases (c == slash)) [
  | inl t ↦ rw t (tt, segments-no_slash s)
  | inr f ↦ rw f (prepend-no_slash c (segments s) f (segments-no_slash s))
]
  where
    prepend-no_slash :
        (c : ℕ) (ss : List Text)
        → (c == slash) ≡ false
        → All (All (λ c. (c == slash) ≡ false)) ss
        → All (All (λ c. (c == slash) ≡ false)) (prepend c ss)
    prepend-no_slash c [] f h = ((f, tt), tt)
    prepend-no_slash c (s ∷ ss) f (h, hs) = ((f, h), hs)

segments-ne : (s : Text) → s ≢ [] → segments s ≢ []
segments-ne s h e = cc (sym (segments_lem s h) ∙ e)

prepend-append : (c : ℕ) (ss ts : List Text) → ss ≢ [] → prepend c (ss ++ ts) ≡ prepend c ss ++ ts
prepend-append c [] ts h = absurd (h refl)
prepend-append c (s ∷ ss) ts h = refl

-- The segments of `s/t` are those of `s` and then those of `t`, unless `s` is empty or ends with a
-- slash itself.
pub segments-slash :
    (s t : Text)
    → s ≢ []
    → ends_with slash s ≡ false
    → segments (s ++ slash ∷ t) ≡ segments s ++ segments t
unfolding segments ends_with
segments-slash [] t h e = absurd (h refl)
segments-slash (c ∷ []) t h e = ground arith
segments-slash (c ∷ (d ∷ s)) t h e = elim (Bool-cases (c == slash)) [
  | inl y ↦ rw y (ap (λ ss. [] ∷ ss) (segments-slash (d ∷ s) t (λ q. cc) e))
  | inr n ↦ rw n (
      ap (prepend c) (segments-slash (d ∷ s) t (λ q. cc) e)
      ∙ prepend-append c (segments (d ∷ s)) (segments t) (segments-ne (d ∷ s) (λ q. cc)))
]
