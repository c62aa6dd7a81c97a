-- ===== src/Http/Router/Static/Transfer.antt =====
-- The chunked transfer of a big file, of src/http/router.cpp.
use nimlib.Prelude.{
  ℕ, zero, suc, ◌+◌, ◌-◌, ◌*◌, ◌%◌, ◌≤◌, ◌<◌, ◌≡◌, refl, sym, ap, ◌∙◌, none, some, [], ◌∷◌, ◌++◌,
  arith, length, take, drop, take-add, append_assoc, append-nil, lt→ltb, dec_lt, ℕ_discrete,
}
use nimlib.Prelude.Text.{Text, hexadecimal}
use nimlib.Utils.Helpers.{read_chunk}
use nimlib.Utils.Helpers.Chunks.{read_chunk_lem}
use nimlib.Http.Router.Static.{chunk_size, frame, chunk_loop, expected_chunk_count}

-- The chunk of length zero that ends a transfer.
abbrev pub ending : Text
ending = 48 ∷ 13 ∷ 10 ∷ 13 ∷ 10 ∷ []

module _ (source : Text) where
  abbrev pub chunk : ℕ → Text
  chunk n = take (1024 * 300) (drop (n * (1024 * 300)) source)

  -- A chunk as it is sent: its length in hexadecimal digits, the bytes, and line ends.
  abbrev pub chunk_frame : ℕ → Text
  chunk_frame n = hexadecimal (length (chunk n)) ++ (13 ∷ 10 ∷ [] ++ (chunk n ++ 13 ∷ 10 ∷ []))

  -- The chunks below `n`, one after the other.
  pub joined : ℕ → Text
  joined zero = []
  joined (suc n) = joined n ++ chunk n

  pub joined_lem : (n : ℕ) → joined n ≡ take (n * (1024 * 300)) source
  unfolding joined
  joined_lem zero = refl
  joined_lem (suc n) =
      let e : n * (1024 * 300) + 1024 * 300 ≡ suc n * (1024 * 300) = omega arith in
      ap (λ b. b ++ chunk n) (joined_lem n)
      ∙ sym (take-add (n * (1024 * 300)) (1024 * 300) source)
      ∙ ap (λ k. take k source) e

  -- The frames of `count` chunks from `n` on.
  abbrev pub frames : ℕ → ℕ → Text
  frames n zero = []
  frames n (suc count) = chunk_frame n ++ frames (n + 1) count

  abbrev pub chunk_count : ℕ
  chunk_count = expected_chunk_count (length source)

  chunk_there :
      (n : ℕ)
      → n < chunk_count
      → read_chunk source (length source) chunk_size n
        ≡ some (take chunk_size (drop (n * chunk_size) source))
  chunk_there n h =
      read_chunk_lem source chunk_size n
      ∙ rw (lt→ltb (n * chunk_size) (length source) (ground arith))

  chunk_missing : (n : ℕ) → chunk_count ≤ n → read_chunk source (length source) chunk_size n ≡ none
  chunk_missing n h = read_chunk_lem source chunk_size n ∙ ground arith

  chunk_loop_end :
      (fuel n : ℕ) (body : Text)
      → chunk_count ≤ n
      → chunk_loop (suc fuel) source (length source) n body ≡ (body, n)
  unfolding chunk_loop
  chunk_loop_end fuel n body h = rw (chunk_missing n h, chunk_loop)

  frame_lem : (n : ℕ) → frame (chunk n) ≡ chunk_frame n
  unfolding frame
  frame_lem n = refl

  chunk_loop_odd :
      (fuel n : ℕ) (body : Text)
      → n < chunk_count
      → (n + 1) % 2 ≡ 0
      → chunk_loop (suc fuel) source (length source) n body ≡ (body ++ chunk_frame n, n + 1)
  unfolding chunk_loop
  chunk_loop_odd fuel n body h odd =
      rw (chunk_there n h, chunk_loop, odd) (ap (λ x. (body ++ x, n + 1)) (frame_lem n))

  chunk_loop_even :
      (fuel n : ℕ) (body : Text)
      → n < chunk_count
      → n % 2 ≡ 0
      → chunk_loop (suc fuel) source (length source) n body
        ≡ chunk_loop fuel source (length source) (n + 1) (body ++ chunk_frame n)
  unfolding chunk_loop
  chunk_loop_even fuel n body h even =
      let q : (n + 1) % 2 ≡ 1 = omega arith in
      rw (chunk_there n h, chunk_loop, q)
        (ap (λ x. chunk_loop fuel source (length source) (n + 1) (body ++ x)) (frame_lem n))

  -- One call writes the frames of the chunks from `n` up to the next even number, or to the last
  -- chunk, and two rounds of its loop are enough.
  pub record Round (n : ℕ) (body : Text) (out : Text × ℕ) : Type 0 where
    pub written : out.0 ≡ body ++ frames n (out.1 - n)
    pub further : n < chunk_count → n < out.1
    pub within : out.1 ≤ chunk_count
    pub above : n ≤ out.1

  one_frame : (n : ℕ) (body : Text) → body ++ chunk_frame n ≡ body ++ frames n (n + 1 - n)
  one_frame n body =
      ap (λ t. body ++ t) (sym (append-nil (chunk_frame n)))
      ∙ ap (λ k. body ++ frames n k) (let q : 1 ≡ n + 1 - n = omega arith in q)

  two_frames :
      (n : ℕ) (body : Text)
      → (body ++ chunk_frame n) ++ chunk_frame (n + 1) ≡ body ++ frames n (n + 1 + 1 - n)
  two_frames n body =
      append_assoc body (chunk_frame n) (chunk_frame (n + 1))
      ∙ ap (λ t. body ++ (chunk_frame n ++ t)) (sym (append-nil (chunk_frame (n + 1))))
      ∙ ap (λ k. body ++ frames n k) (let q : 2 ≡ n + 1 + 1 - n = omega arith in q)

  no_frames : (n : ℕ) (body : Text) → body ≡ body ++ frames n (n - n)
  no_frames n body =
      sym (append-nil body) ∙ ap (λ k. body ++ frames n k) (let q : 0 ≡ n - n = omega arith in q)

  pub chunk_loop-Round :
      (fuel n : ℕ) (body : Text)
      → n ≤ chunk_count
      → Round n body (chunk_loop (suc (suc fuel)) source (length source) n body)
  chunk_loop-Round fuel n body le = elim (dec_lt n chunk_count) [
    | no ge ↦ rw (chunk_loop_end (suc fuel) n body (omega arith)) (record {
      written = no_frames n body;
      further = λ h. absurd (ge h);
      within = le;
      above = omega arith;
    })
    | yes lt ↦ elim (ℕ_discrete (n % 2) 0) [
      | no odd ↦ rw (chunk_loop_odd (suc fuel) n body lt (omega arith)) (record {
        written = one_frame n body;
        further = λ h. omega arith;
        within = omega arith;
        above = omega arith;
      })
      | yes even ↦
          rw (chunk_loop_even (suc fuel) n body lt even)
            (second fuel n body lt even (dec_lt (n + 1) chunk_count))
    ]
  ]
    where
      second :
          (fuel n : ℕ) (body : Text)
          → n < chunk_count
          → n % 2 ≡ 0
          → Dec (n + 1 < chunk_count)
          → Round n body
              (chunk_loop (suc fuel) source (length source) (n + 1) (body ++ chunk_frame n))
      second fuel n body lt even (no ge) =
          rw (chunk_loop_end fuel (n + 1) (body ++ chunk_frame n) (omega arith)) (record {
            written = one_frame n body;
            further = λ h. omega arith;
            within = omega arith;
            above = omega arith;
          })
      second fuel n body lt even (yes more) =
          rw (chunk_loop_odd fuel (n + 1) (body ++ chunk_frame n) more (omega arith)) (record {
            written = two_frames n body;
            further = λ h. omega arith;
            within = omega arith;
            above = omega arith;
          })
