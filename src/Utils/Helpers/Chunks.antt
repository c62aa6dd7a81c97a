-- ===== src/Utils/Helpers/Chunks.antt =====
-- The chunks of `read_chunk` make up the source.
use nimlib.Prelude.{
  ℕ, zero, suc, ◌+◌, ◌-◌, ◌*◌, ◌≤◌, ◌≡◌, sym, ap, ◌∙◌, Option, none, some, [], ◌++◌, arith, length,
  take, drop, ltb, if◌then◌else◌, length-drop, length-take, take-length, drop-length, append-nil,
  replicate, dec_lt, take-add, take-nil,
}
use nimlib.Prelude.Text.{Text}
use nimlib.Utils.Helpers.{read_at, read_chunk}

-- The bytes of chunk `n`, none past the last.
abbrev pub chunk_bytes : Option Text → Text
chunk_bytes none = []
chunk_bytes (some b) = b

read_at_within :
    (source : Text) (begin n : ℕ)
    → n ≤ length source - begin
    → read_at source begin n ≡ take n (drop begin source)
read_at_within source begin n h =
    ap (λ k. take n (drop begin source) ++ replicate k 0) none_left
    ∙ append-nil (take n (drop begin source))
  where
    none_left : n - length (take n (drop begin source)) ≡ 0
    none_left = omega (arith, length-take n (drop begin source), length-drop begin source)

-- A chunk of the file: the bytes from `n * size` on, `size` of them or as many as there are.
pub read_chunk_lem :
    (source : Text) (size n : ℕ)
    → read_chunk source (length source) size n
      ≡ (if ltb (n * size) (length source) then some (take size (drop (n * size) source)) else none)
unfolding read_chunk
read_chunk_lem source size n = elim (dec_lt (length source) (n * size + size)) [
  | yes short ↦ ground (
    arith,
    read_at_within source (n * size) (length source - n * size),
    length-drop (n * size) source,
    take-length size (drop (n * size) source),
    take-length (length source - n * size) (drop (n * size) source),
  )
  | no long ↦ ground (
    arith,
    read_at_within source (n * size) size,
    length-drop (n * size) source,
    drop-length (n * size) source,
    sized,
  )
]
  where
    sized : n * size + size - n * size ≡ size
    sized = omega arith

-- The bytes of the chunks below `n`, in order.
pub chunks_below : Text → ℕ → ℕ → Text
chunks_below source size zero = []
chunks_below source size (suc n) =
    chunks_below source size n ++ chunk_bytes (read_chunk source (length source) size n)

chunk_bytes-read_chunk :
    (source : Text) (size n : ℕ)
    → chunk_bytes (read_chunk source (length source) size n) ≡ take size (drop (n * size) source)
chunk_bytes-read_chunk source size n =
    ap chunk_bytes (read_chunk_lem source size n)
    ∙ ground (arith, drop-length (n * size) source, take-nil {A = ℕ} size)

-- The chunks below `n` are the first `n * size` bytes.
pub chunks_below-take :
    (source : Text) (size n : ℕ) → chunks_below source size n ≡ take (n * size) source
unfolding chunks_below
chunks_below-take source size zero = let e : 0 ≡ 0 * size = omega arith in ap (λ k. take k source) e
chunks_below-take source size (suc n) =
    let e : n * size + size ≡ suc n * size = omega arith in
    ap (λ b. b ++ chunk_bytes (read_chunk source (length source) size n))
      (chunks_below-take source size n)
    ∙ ap (λ b. take (n * size) source ++ b) (chunk_bytes-read_chunk source size n)
    ∙ sym (take-add (n * size) size source)
    ∙ ap (λ k. take k source) e
