-- ===== src/OrderKey/Compare.antt =====
-- The order of keys: `<` on strings, byte by byte.
use knowtion.Base.{
  Bool, true, false, ◌&&◌, ◌||◌, [], ◌∷◌, Text, ltb, ◌==◌, list_eq, nat_eq, if◌then◌else◌, Ordering,
}

-- `a < b` on strings.
unfoldable pub text_lt : Text → Text → Bool
text_lt [] [] = false
text_lt [] (_ ∷ _) = true
text_lt (_ ∷ _) [] = false
text_lt (x ∷ xs) (y ∷ ys) = ltb x y || (x == y && text_lt xs ys)

-- `compareOrderKeys`, with -1, 0 and 1 as `lt`, `eq` and `gt`.
unfoldable pub compare_order_keys : Text → Text → Ordering
compare_order_keys a b =
    if a == b then Ordering.eq else if text_lt a b then Ordering.lt else Ordering.gt
