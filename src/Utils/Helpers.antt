-- ===== src/Utils/Helpers.antt =====
-- src/utils/helpers.cpp: `split` and `read_chunk`.
--
-- `split` takes a view of a `std::string`, whose buffer ends with the byte 0: that is what the code
-- reads one place past the end of the view, and it is no white space.
pub mod Chunks
mod Tests
use nimlib.Prelude.{
  ℕ, zero, suc, ◌+◌, ◌-◌, ◌*◌, ◌^◌, ◌≡◌, Bool, true, false, ◌&&◌, ◌||◌, Option, none, some, List,
  [], ◌∷◌, ◌++◌, ltb, leb, ◌==◌, if◌then◌else◌, get_or, take, drop, length, replicate,
}
use nimlib.Prelude.Text.{Text, is_space}

-- `a - b` over `size_t`, for `a` and `b` below 2 ^ 64.
abbrev pub sub_size : ℕ → ℕ → ℕ
sub_size a b = if leb b a then a - b else a + 2 ^ 64 - b

-- `s.substr(pos, count)`, for `pos` up to the size of `s`.
abbrev pub substr : Text → ℕ → ℕ → Text
substr s pos count = take count (drop pos s)

abbrev pub is_prefix : Text → Text → Bool
is_prefix [] s = true
is_prefix (d ∷ ds) [] = false
is_prefix (d ∷ ds) (c ∷ s) = d == c && is_prefix ds s

abbrev pub raise : ℕ → Option ℕ → Option ℕ
raise n none = none
raise n (some k) = some (k + n)

-- `s.find(d)`, and `s.find(d, begin)`; `none` is `npos`.
unfoldable pub find_sub : Text → Text → Option ℕ
find_sub d [] = if is_prefix d [] then some 0 else none
find_sub d (c ∷ s) = if is_prefix d (c ∷ s) then some 0 else raise 1 (find_sub d s)

unfoldable pub find_from : Text → Text → ℕ → Option ℕ
find_from d s begin = if leb begin (length s) then raise begin (find_sub d (drop begin s)) else none

-- `while (white_space(s[b])) b++`: by how much `b` grows, over the bytes from `b` on.
unfoldable pub count_spaces : Text → ℕ
count_spaces [] = 0
count_spaces (c ∷ s) = if is_space c then count_spaces s + 1 else 0

-- `while (white_space(s[e])) e--`, which stops at a byte before `e` that is no white space.
unfoldable pub back_spaces : Text → ℕ → ℕ
back_spaces s zero = zero
back_spaces s (suc e) = if is_space (get_or s (suc e) 0) then back_spaces s e else suc e

-- The view that a round pushes. `stop` is `end_no_ws + 1`, so that `end_no_ws` may be -1; the test
-- `begin_no_ws < end_no_ws && end_no_ws > 0` is stated of `stop`.
unfoldable pub piece : Text → ℕ → ℕ → Text
piece s begin end =
    let begin_no_ws : ℕ = begin + count_spaces (drop begin s) in
    let stop : ℕ =
      if ltb (begin_no_ws + 1) end && ltb 1 end then back_spaces s (end - 1) + 1 else end in
    substr s begin_no_ws (sub_size stop begin_no_ws)

-- `end`, the place of the next delimiter or the size.
abbrev pub or_size : Text → Option ℕ → ℕ
or_size s none = length s
or_size s (some pos) = pos

-- The loop. Each round moves `begin` on by at least one, so that the size and one more are fuel
-- enough.
unfoldable pub split_loop : ℕ → Text → Text → ℕ → ℕ → List Text → List Text
split_loop zero s d begin end splits = splits
split_loop (suc fuel) s d begin end splits =
    let end' : ℕ = or_size s (find_from d s begin) in
    let rest = split_loop fuel s d (end' + length d) end' (splits ++ piece s begin end' ∷ []) in
    if ltb end (length s) then rest else splits

-- What `split` appends to `splits`.
unfoldable pub split : Text → Text → List Text → List Text
split s [] splits = splits
split [] (d ∷ ds) splits = splits
split (c ∷ s) (d ∷ ds) splits = split_loop (length (c ∷ s) + 1) (c ∷ s) (d ∷ ds) 0 0 splits

-- `source.read(buffer, n)` at `begin` into a buffer of `n` zero bytes.
abbrev pub read_at : Text → ℕ → ℕ → Text
read_at source begin n =
    take n (drop begin source) ++ replicate (n - length (take n (drop begin source))) 0

-- `read_chunk`: the new buffer, or `none` where it returns false. The numbers are `long`s of files
-- whose sizes stay below 2 ^ 63.
unfoldable pub read_chunk : Text → ℕ → ℕ → ℕ → Option Text
read_chunk source source_size chunk_size chunk_number =
    let begin : ℕ = chunk_number * chunk_size in
    let end : ℕ =
      if ltb source_size (begin + chunk_size) then source_size else begin + chunk_size in
    if leb source_size begin then none else some (read_at source begin (end - begin))
