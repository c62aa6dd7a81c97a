-- ===== src/Utils/CircularArray/Window.antt =====
-- The ring of src/utils/circular_array.h holds the newest values, oldest first.
use nimlib.Prelude.{
  ℕ, zero, suc, ◌+◌, ◌-◌, ◌%◌, ◌≤◌, ◌<◌, ◌≡◌, refl, sym, ◌∙◌, ap, ◌≢◌, List, [], ◌∷◌, ◌++◌, arith,
  ltb, leb, if◌then◌else◌, length, get_or, set, replicate, drop, length-set, length-replicate,
  length-append, length-drop, get_or-set_self, get_or-set_ne, get_or-append_left,
  get_or-append_length, get_or-drop, list_ext, dec_lt, ℕ_discrete,
}
use nimlib.Utils.CircularArray.{CircularArray, new, push_back, at, read_back, copy_loop, copy}
use native.Mathlib.Nat.{mod-eq_of_lt, mod-eq-sub-mod}

-- The array has its capacity, and until it is full the values stand from index 0 on.
pub record IsValid {T : Type 0} (a : CircularArray T) : Type 0 where
  pub sized : length a.array ≡ a.capacity
  pub next_in : a.next < a.capacity
  pub filled : a.fill_count ≤ a.capacity
  pub from_start : a.fill_count < a.capacity → a.next ≡ a.fill_count

module _ {T : Type 0} (initial : T) where
  pub new-IsValid : (capacity : ℕ) → 0 < capacity → IsValid (new initial capacity)
  unfolding new
  new-IsValid capacity h = record {
    sized = length-replicate capacity initial;
    next_in = h;
    filled = omega arith;
    from_start = λ _. refl;
  }

  wrap : (n c : ℕ) → n < c → ((n + 1) % c ≡ (if ltb (n + 1) c then n + 1 else 0))
  wrap n c h = elim (dec_lt (n + 1) c) [
    | yes p ↦ rw (mod-eq_of_lt p) (ground arith)
    | no p ↦ grind (arith, mod-eq-sub-mod {n = n + 1} {m = c}, mod-eq_of_lt {n = 0} {m = c})
  ]

  pub push_back-IsValid :
      (a : CircularArray T) (t : T) → IsValid a → IsValid (push_back initial a t)
  unfolding push_back
  push_back-IsValid a t v =
      ground (arith, length-set a.array a.next t, wrap a.next a.capacity v.next_in, v.from_start)

  -- Where the value pushed `i` calls ago stands.
  abbrev slot : CircularArray T → ℕ → ℕ
  slot a i = if leb i a.next then a.next - i else a.capacity + a.next - i

  read_back-slot :
      (a : CircularArray T) (i : ℕ) → read_back initial a i ≡ get_or a.array (slot a i) initial
  unfolding read_back
  read_back-slot a i = ground arith

  slot-push_back :
      (a : CircularArray T) (t : T) (i : ℕ)
      → IsValid a
      → i < a.capacity
      → slot (push_back initial a t) (i + 1) ≡ slot a i
  unfolding push_back
  slot-push_back a t i v h = ground (arith, wrap a.next a.capacity v.next_in)

  slot-ne-next :
      (a : CircularArray T) (i : ℕ) → IsValid a → 0 < i → i < a.capacity → a.next ≢ slot a i
  slot-ne-next a i v p h = ground arith

  read_back-push_back :
      (a : CircularArray T) (t : T) (i : ℕ)
      → IsValid a
      → 0 < i
      → i < a.capacity
      → read_back initial (push_back initial a t) (i + 1) ≡ read_back initial a i
  unfolding push_back
  read_back-push_back a t i v p h =
      read_back-slot (push_back initial a t) (i + 1)
      ∙ ap (λ k. get_or (set a.array a.next t) k initial) (slot-push_back a t i v h)
      ∙ get_or-set_ne a.array a.next (slot a i) t initial (slot-ne-next a i v p h)
      ∙ sym (read_back-slot a i)

  read_back-newest :
      (a : CircularArray T) (t : T) → IsValid a → read_back initial (push_back initial a t) 1 ≡ t
  unfolding push_back
  read_back-newest a t v =
      read_back-slot (push_back initial a t) 1
      ∙ ap (λ k. get_or (set a.array a.next t) k initial)
          (slot-push_back a t 0 v (omega (arith, v.next_in)))
      ∙ ground (arith, get_or-set_self a.array a.next t initial, v.sized, v.next_in)

  length-copy_loop :
      (a : CircularArray T) (n : ℕ) (out : List T) → length (copy_loop initial a n out) ≡ length out
  unfolding copy_loop
  length-copy_loop a zero out = refl
  length-copy_loop a (suc j) out =
      length-copy_loop a j (set out j (read_back initial a (a.fill_count - j)))
      ∙ length-set out j (read_back initial a (a.fill_count - j))

  get_or-copy_loop_above :
      (a : CircularArray T) (n k : ℕ) (out : List T)
      → n ≤ k
      → get_or (copy_loop initial a n out) k initial ≡ get_or out k initial
  unfolding copy_loop
  get_or-copy_loop_above a zero k out h = refl
  get_or-copy_loop_above a (suc j) k out h =
      get_or-copy_loop_above a j k (set out j (read_back initial a (a.fill_count - j)))
        (omega arith)
      ∙ get_or-set_ne out j k (read_back initial a (a.fill_count - j)) initial (omega arith)

  get_or-copy_loop :
      (a : CircularArray T) (n k : ℕ) (out : List T)
      → k < n
      → n ≤ length out
      → get_or (copy_loop initial a n out) k initial ≡ read_back initial a (a.fill_count - k)
  unfolding copy_loop
  get_or-copy_loop a zero k out h l = absurd (omega arith)
  get_or-copy_loop a (suc j) k out h l = elim (ℕ_discrete k j) [
    | yes e ↦
        get_or-copy_loop_above a j k (set out j (read_back initial a (a.fill_count - j)))
          (omega arith)
        ∙ rw e (get_or-set_self out j (read_back initial a (a.fill_count - j)) initial l)
    | no ne ↦
        get_or-copy_loop a j k (set out j (read_back initial a (a.fill_count - j))) (omega arith)
          (omega (arith, length-set out j (read_back initial a (a.fill_count - j))))
  ]

  pub length-copy : (a : CircularArray T) → length (copy initial a) ≡ a.fill_count
  unfolding copy
  length-copy a =
      length-copy_loop a a.fill_count (replicate a.fill_count initial)
      ∙ length-replicate a.fill_count initial

  get_or-copy :
      (a : CircularArray T) (k : ℕ)
      → k < a.fill_count
      → get_or (copy initial a) k initial ≡ read_back initial a (a.fill_count - k)
  unfolding copy
  get_or-copy a k h =
      get_or-copy_loop a a.fill_count k (replicate a.fill_count initial) h
        (omega (arith, length-replicate a.fill_count initial))

  -- In a valid ring `a[i]` is the value at index `i` of `copy()`, for each `i` below the number of
  -- values held.
  pub at-copy :
      (a : CircularArray T) (i : ℕ)
      → IsValid a
      → i < a.fill_count
      → at initial a i ≡ get_or (copy initial a) i initial
  unfolding at
  at-copy a i v h =
      rw (get_or-copy a i h, read_back-slot a (a.fill_count - i))
        (ground (
          arith,
          v.from_start,
          mod-eq-sub-mod {n = a.next + a.capacity - a.fill_count + i} {m = a.capacity},
          mod-eq_of_lt {n = a.next + a.capacity - a.fill_count + i} {m = a.capacity},
          mod-eq_of_lt {n = a.next + a.capacity - a.fill_count + i - a.capacity} {m = a.capacity},
        ))

  -- The number of values that a push drops.
  abbrev pub dropped : CircularArray T → ℕ
  dropped a = if ltb a.fill_count a.capacity then 0 else 1

  -- A push drops a value only from a full ring.
  pub dropped-le :
      (a : CircularArray T)
      → IsValid a
      → (a.fill_count < a.capacity + dropped a) × (dropped a ≤ a.fill_count)
  dropped-le a v = ground (arith, v.filled, v.next_in)

  fill_count-push_back :
      (a : CircularArray T) (t : T)
      → IsValid a
      → (push_back initial a t).fill_count ≡ a.fill_count + 1 - dropped a
  unfolding push_back
  fill_count-push_back a t v = ground (arith, v.filled)

  length-window :
      (a : CircularArray T) (t : T)
      → IsValid a
      → length (drop (dropped a) (copy initial a) ++ t ∷ []) ≡ a.fill_count + 1 - dropped a
  length-window a t v = ground (
    arith,
    length-append (drop (dropped a) (copy initial a)) (t ∷ []),
    length-drop (dropped a) (copy initial a),
    length-copy a,
    v.filled,
    v.next_in,
  )

  window-read :
      (a : CircularArray T) (t : T) (i : ℕ)
      → IsValid a
      → i < a.fill_count + 1 - dropped a
      → read_back initial (push_back initial a t) (a.fill_count + 1 - dropped a - i)
        ≡ get_or (drop (dropped a) (copy initial a) ++ t ∷ []) i initial
  window-read a t i v h = elim (ℕ_discrete i (length (drop (dropped a) (copy initial a)))) [
    | yes e ↦
        ap (read_back initial (push_back initial a t))
          (omega (arith, length-drop (dropped a) (copy initial a), length-copy a, dropped-le a v))
        ∙ read_back-newest a t v
        ∙ rw e (sym (get_or-append_length (drop (dropped a) (copy initial a)) [] t initial))
    | no ne ↦
        let lt : i < a.fill_count - dropped a =
          omega (arith, length-drop (dropped a) (copy initial a), length-copy a) in
        ap (read_back initial (push_back initial a t)) (
          let q : a.fill_count + 1 - dropped a - i ≡ a.fill_count - (dropped a + i) + 1 =
            omega arith in
          q)
        ∙ read_back-push_back a t (a.fill_count - (dropped a + i)) v (omega arith)
            (omega (arith, dropped-le a v))
        ∙ sym (get_or-copy a (dropped a + i) (omega arith))
        ∙ sym (get_or-drop (dropped a) i (copy initial a) initial)
        ∙ sym (
            get_or-append_left (drop (dropped a) (copy initial a)) (t ∷ []) i initial
              (omega (arith, length-drop (dropped a) (copy initial a), length-copy a)))
  ]

  pub copy-push_back-dropped :
      (a : CircularArray T) (t : T)
      → IsValid a
      → copy initial (push_back initial a t) ≡ drop (dropped a) (copy initial a) ++ t ∷ []
  copy-push_back-dropped a t v =
      list_ext _ _ initial
        (length-copy (push_back initial a t)
          ∙ fill_count-push_back a t v
          ∙ sym (length-window a t v))
        (λ i h.
          get_or-copy (push_back initial a t) i (omega (arith, length-copy (push_back initial a t)))
          ∙ ap (λ n. read_back initial (push_back initial a t) (n - i)) (fill_count-push_back a t v)
          ∙ window-read a t i v
              (omega (arith, length-copy (push_back initial a t), fill_count-push_back a t v)))

  -- `copy()` after a push is `copy()` before it without its oldest value, if the ring was full, and
  -- with the value pushed at the end.
  pub copy-push_back :
      (a : CircularArray T) (t : T)
      → IsValid a
      → copy initial (push_back initial a t)
        ≡ (if ltb a.fill_count a.capacity then copy initial a else drop 1 (copy initial a))
          ++ t ∷ []
  copy-push_back a t v = copy-push_back-dropped a t v ∙ ground arith
