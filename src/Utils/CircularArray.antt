-- ===== src/Utils/CircularArray.antt =====
-- src/utils/circular_array.h: `CircularArray<T>`, which keeps the last `capacity` values pushed.
-- `initial` is the value `T{}` that fills the array at first. Indices are below `capacity`, an
-- `int`, so that no sum of the code overflows.
pub mod Window
pub mod History
mod Tests
use nimlib.Prelude.{
  ℕ, zero, suc, ◌+◌, ◌-◌, ◌%◌, ◌≡◌, List, [], ◌∷◌, ltb, leb, if◌then◌else◌, get_or, set, replicate,
}

pub record CircularArray (T : Type 0) : Type 0 where
  pub capacity : ℕ
  pub array : List T
  pub next : ℕ
  pub fill_count : ℕ

module _ {T : Type 0} (initial : T) where
  -- The constructor.
  unfoldable pub new : ℕ → CircularArray T
  new capacity = record {
    capacity = capacity;
    array = replicate capacity initial;
    next = 0;
    fill_count = 0;
  }

  unfoldable pub push_back : CircularArray T → T → CircularArray T
  push_back a t = record a {
    array = set a.array a.next t;
    next = (a.next + 1) % a.capacity;
    fill_count = if ltb a.fill_count a.capacity then a.fill_count + 1 else a.fill_count;
  }

  -- `operator[]`; the test `next - fill_count >= 0` is over `int`.
  pub at : CircularArray T → ℕ → T
  at a i =
      if leb a.fill_count a.next
      then get_or a.array (a.next - a.fill_count + i) initial
      else get_or a.array ((a.next + a.capacity - a.fill_count + i) % a.capacity) initial

  -- The value that `copy` reads for its loop variable `i`: `pos` is `next - i`, or that less than
  -- zero, when `capacity` is added.
  pub read_back : CircularArray T → ℕ → T
  read_back a i =
      if leb i a.next
      then get_or a.array (a.next - i) initial
      else get_or a.array (a.capacity + a.next - i) initial

  -- The loop of `copy` with the rounds left: `j` is one less than these, and `i` makes up
  -- `fill_count` with `j`.
  pub copy_loop : CircularArray T → ℕ → List T → List T
  copy_loop a zero out = out
  copy_loop a (suc j) out = copy_loop a j (set out j (read_back a (a.fill_count - j)))

  pub copy : CircularArray T → List T
  copy a = copy_loop a a.fill_count (replicate a.fill_count initial)
