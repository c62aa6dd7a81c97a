-- ===== src/Utils/CircularArray/History.antt =====
-- The ring of src/utils/circular_array.h against the history of the values pushed into it.
use nimlib.Prelude.{
  ℕ, ◌+◌, ◌-◌, ◌<◌, ◌≡◌, refl, sym, ◌∙◌, ap, List, [], ◌∷◌, ◌++◌, arith, length, drop,
  length-append, length-drop, drop-drop, drop-append, drop-nil, foldl, append-nil, append_assoc,
}
use nimlib.Utils.CircularArray.{CircularArray, new, push_back, copy_loop, copy}
use nimlib.Utils.CircularArray.Window.{
  IsValid, new-IsValid, push_back-IsValid, length-copy, dropped, copy-push_back-dropped,
}

module _ {T : Type 0} (initial : T) where
  -- The values of a list that remain when at most `n` of the newest are kept.
  abbrev pub newest : ℕ → List T → List T
  newest n xs = drop (length xs - n) xs

  -- The ring against the whole history of the values pushed.
  abbrev pub Holds : List T → CircularArray T → Type 0
  Holds xs a = IsValid a × (copy initial a ≡ newest a.capacity xs)

  pub capacity-push_back :
      (a : CircularArray T) (t : T) → (push_back initial a t).capacity ≡ a.capacity
  unfolding push_back
  capacity-push_back a t = refl

  pub push_back-Holds :
      (xs : List T) (a : CircularArray T) (t : T)
      → Holds xs a
      → Holds (xs ++ t ∷ []) (push_back initial a t)
  push_back-Holds xs a t (v, e) = (push_back-IsValid initial a t v, shown)
    where
      held : a.fill_count ≡ length xs - (length xs - a.capacity)
      held = sym (length-copy initial a) ∙ ap length e ∙ length-drop (length xs - a.capacity) xs

      kept : length xs - a.capacity + dropped initial a ≡ length (xs ++ t ∷ []) - a.capacity
      kept = ground (arith, held, length-append xs (t ∷ []), v.filled, v.next_in)

      shown :
          copy initial (push_back initial a t)
          ≡ newest (push_back initial a t).capacity (xs ++ t ∷ [])
      shown =
          copy-push_back-dropped initial a t v
          ∙ ap (λ l. drop (dropped initial a) l ++ t ∷ []) e
          ∙ ap (λ l. l ++ t ∷ []) (drop-drop (dropped initial a) (length xs - a.capacity) xs)
          ∙ sym (
              drop-append (length xs - a.capacity + dropped initial a) xs (t ∷ [])
                (ground (arith, held, v.filled, v.next_in)))
          ∙ ap (λ n. drop n (xs ++ t ∷ [])) kept
          ∙ ap (λ c. newest c (xs ++ t ∷ [])) (sym (capacity-push_back a t))

  push_all-Holds :
      (xs ys : List T) (a : CircularArray T)
      → Holds xs a
      → Holds (xs ++ ys) (foldl (push_back initial) a ys)
  push_all-Holds xs [] a h = rw (append-nil xs) h
  push_all-Holds xs (y ∷ ys) a h =
      rw (← append_assoc xs (y ∷ []) ys)
        (push_all-Holds (xs ++ y ∷ []) ys (push_back initial a y) (push_back-Holds xs a y h))

  pub new-Holds : (capacity : ℕ) → 0 < capacity → Holds [] (new initial capacity)
  unfolding new copy copy_loop
  new-Holds capacity h = (new-IsValid initial capacity h, sym (drop-nil (0 - capacity)))

  capacity-push_all :
      (ys : List T) (a : CircularArray T) → (foldl (push_back initial) a ys).capacity ≡ a.capacity
  capacity-push_all [] a = refl
  capacity-push_all (y ∷ ys) a =
      capacity-push_all ys (push_back initial a y) ∙ capacity-push_back a y

  -- A new ring of positive capacity into which the values `xs` are pushed in turn gives back, by
  -- `copy()`, the last `capacity` of them in the order of the pushes (all of them, if fewer).
  pub copy-push_all :
      (capacity : ℕ) (xs : List T)
      → 0 < capacity
      → copy initial (foldl (push_back initial) (new initial capacity) xs) ≡ newest capacity xs
  unfolding new
  copy-push_all capacity xs h =
      (push_all-Holds [] xs (new initial capacity) (new-Holds capacity h)).1
      ∙ ap (λ c. newest c xs) (capacity-push_all xs (new initial capacity))
