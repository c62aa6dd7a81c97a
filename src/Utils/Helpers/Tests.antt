-- ===== src/Utils/Helpers/Tests.antt =====
-- Chunks of a short file, for src/utils/helpers.cpp.
use nimlib.Prelude.{◌*◌, ◌≡◌, refl, none, some, [], ◌∷◌, take}
use nimlib.Prelude.Text.{codes}
use nimlib.Utils.Helpers.{
  split, split_loop, piece, find_from, find_sub, count_spaces, back_spaces, read_chunk,
}
use nimlib.Utils.Helpers.Chunks.{chunks_below, chunks_below-take}

splits : split (codes "a , b,,c") (codes ",") [] ≡ codes "a" ∷ (codes "b" ∷ ([] ∷ (codes "c" ∷ [])))
unfolding split split_loop piece find_from find_sub count_spaces back_spaces
splits = refl

chunks :
    (read_chunk (codes "abc") 3 2 1 ≡ some (codes "c")) × (read_chunk (codes "abc") 3 2 2 ≡ none)
unfolding read_chunk
chunks = (refl, refl)

chunks_below-take_example : chunks_below (codes "abc") 2 1 ≡ take (1 * 2) (codes "abc")
chunks_below-take_example = chunks_below-take (codes "abc") 2 1
