-- ===== src/Metaprog.antt =====
-- metaprog.h: sizes that templates compute.
use foster_btree.Prelude.{
  ℕ, zero, suc, ◌+◌, ◌/◌, ◌%◌, ◌^◌, List, [], ◌∷◌, ltb, if◌then◌else◌, length,
}
use foster_btree.Prelude.{◌*◌, ◌-◌}

-- `get_pointer_size(n, iter)`: at most `rounds` calls remain, and `n >> iter` is `n / 2 ^ iter`. The
-- source has no value for `n` of 2 ^ 63 and more, since the shift by 64 is no constant expression; the
-- clause without rounds left is for these alone.
unfoldable pub pointer_size_from : (rounds n iter : ℕ) → ℕ
pointer_size_from zero n iter = iter / 8 + (if ltb 0 (iter % 8) then 1 else 0)
pointer_size_from (suc rounds) n iter =
    let deeper = pointer_size_from rounds n (iter + 1) in
    if ltb 0 (n / 2 ^ iter) then deeper else iter / 8 + (if ltb 0 (iter % 8) then 1 else 0)

-- For `n` below 2 ^ 63, the recursion ends within 64 calls.
unfoldable pub get_pointer_size : ℕ → ℕ
unfolding pointer_size_from
get_pointer_size n = pointer_size_from 64 n 0

-- `sizeof(UnsignedInteger<N>)`, by the list of cases in `MetaIntegerImpl`.
unfoldable pub unsigned_integer_size : ℕ → ℕ
unsigned_integer_size n = if ltb n 3 then n else if ltb n 5 then 4 else 8

-- `SizeOfTypePack`: the sum of the sizes of the types.
unfoldable pub size_of_type_pack : List ℕ → ℕ
size_of_type_pack [] = 0
size_of_type_pack (head ∷ tail) = head + size_of_type_pack tail

-- `AlignedSizeOf<Alignment, T...>`, as it is written: `sizeof...(T)` counts the types.
unfoldable pub aligned_size_of : (alignment : ℕ) → List ℕ → ℕ
aligned_size_of alignment types =
    alignment * (length types / alignment + (if ltb 0 (length types % alignment) then 1 else 0))

-- `TypePadding<N, T...>`, the number of bytes; `PaddingImpl<0>` has no type.
unfoldable pub type_padding : (n : ℕ) → List ℕ → ℕ
unfolding aligned_size_of
type_padding n types = aligned_size_of n types - length types
