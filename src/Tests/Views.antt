-- ===== src/Tests/Views.antt =====
-- Views at concrete rows.
use mathlib.Core.List.{Perm}
use knowtion.Base.{
  ℕ, ◌≡◌, ◌≢◌, refl, false, filter, none, some, List, [], ◌∷◌, map, contains, list_beq, nat_eq,
  list_eq, Text, codes,
}
use knowtion.Base.Dict
use knowtion.Property.Values.{PropertyValue, option_ids}
use knowtion.Query.Grammar.{
  NumberOp, OptionOp, LeafTest, Filter, negate, leaf, Direction, SortField, Sort, ViewSpec,
  depth_of, filter_leaves,
}
use knowtion.Query.Problems.{
  Defs, by_id, problems_of_filter, stored_filter_problems, filter_problems, leaf_problems,
  index_onto,
}
use knowtion.Query.Rewrite.{QueryContext}
use knowtion.Evaluate.Matching.{QueryRow, matches_filter}
use knowtion.Evaluate.Matching.Negation.{is_not_is, matches_filter-Opposite}
use knowtion.Evaluate.Sorting.{compare_rows, stable_sort, flip}
use knowtion.Evaluate.Sorting.Order.{compare_rows-flip}
use knowtion.Evaluate.Sorting.Sorted.{Sorted}
use knowtion.Evaluate.Sorting.Stable.{InOrder, stable_sort-InOrder}
use knowtion.Evaluate.View.{group_rows, order_group_keys, row_key, EvaluatedQuery, evaluate_query}
use knowtion.Evaluate.View.Rows.{evaluate_query-broken_filter}
use knowtion.Evaluate.View.Groups.{
  rows_of_groups, columns, group_rows-perm, order_group_keys-columns,
}
use knowtion.Tests.Samples.{natural, natural-HasOrder, state}

abbrev row : Text → ℕ → Text → QueryRow ℕ
row id created option = record {
  id = id;
  title = id;
  created_at = created;
  updated_at = created;
  properties = (codes "p", PropertyValue.select option) ∷ [];
  order_keys = [];
}

abbrev rows : List (QueryRow ℕ)
rows =
    row (codes "x") 3 (codes "b")
    ∷ row (codes "y") 1 (codes "gone")
    ∷ row (codes "z") 2 (codes "a")
    ∷ []

abbrev index : Defs
index = (codes "p", state) ∷ []

abbrev not_a : Filter ℕ
not_a =
    leaf
      (record { property = codes "p"; test = LeafTest.option OptionOp.option_is_not (codes "a") })

abbrev by_title : List Sort
by_title = record { field = SortField.title; direction = Direction.desc } ∷ []

abbrev board : ViewSpec ℕ
board = record {
  filter = some (record { v = 1; expr = not_a });
  unreadable_filter = false;
  sorts = by_title;
  group_by = some (codes "p");
}

-- A filter on a property that does not exist.
abbrev broken_board : ViewSpec ℕ
broken_board = record board {
  filter = some (record {
    v = 1;
    expr = leaf (record { property = codes "q"; test = LeafTest.number NumberOp.lt 3 });
  });
}

abbrev here : QueryContext ℕ
here = record { now_ms = 0; time_zone = codes "UTC" }

group_rows-perm_example : Perm (rows_of_groups natural state (group_rows natural state rows)) rows
unfolding option_ids contains list_beq
group_rows-perm_example = group_rows-perm natural state rows (refl, (refl, tt))

order_group_keys-columns_example :
    order_group_keys state (map (row_key natural state) rows) ≡ columns natural state
order_group_keys-columns_example = order_group_keys-columns natural state rows

matches_filter-Opposite_example :
    matches_filter natural (row (codes "x") 3 (codes "b")) not_a index
    ≡ matches_filter natural
        (row (codes "x") 3 (codes "b"))
        (negate (
          leaf (record {
            property = codes "p";
            test = LeafTest.option OptionOp.option_is (codes "a");
          })))
        index
unfolding Dict.lookup list_beq
matches_filter-Opposite_example =
    matches_filter-Opposite natural (row (codes "x") 3 (codes "b")) index (codes "p") state
      (LeafTest.option OptionOp.option_is_not (codes "a"))
      (LeafTest.option OptionOp.option_is (codes "a")) refl (is_not_is (codes "a"))

compare_rows-flip_example :
    compare_rows natural index by_title none
      (row (codes "z") 2 (codes "a"))
      (row (codes "x") 3 (codes "b"))
    ≡ flip (
        compare_rows natural index by_title none
          (row (codes "x") 3 (codes "b"))
          (row (codes "z") 2 (codes "a")))
compare_rows-flip_example =
    compare_rows-flip natural natural-HasOrder index by_title none (row (codes "x") 3 (codes "b"))
      (row (codes "z") 2 (codes "a"))

stable_sort-InOrder_example :
    InOrder
      (compare_rows natural index by_title none)
      (stable_sort (compare_rows natural index by_title none) rows)
stable_sort-InOrder_example =
    stable_sort-InOrder (compare_rows natural index by_title none)
      (compare_rows-flip natural natural-HasOrder index by_title none) rows

broken_has_problems : problems_of_filter natural broken_board.filter (by_id (state ∷ [])) false ≢ []
unfolding problems_of_filter stored_filter_problems filter_problems leaf_problems depth_of
    filter_leaves by_id index_onto Dict.insert Dict.lookup list_beq
broken_has_problems e = cc

evaluate_query-broken_filter_example :
    (v : EvaluatedQuery ℕ) × (evaluate_query natural rows (state ∷ []) broken_board here none
      ≡ some v)
    × Perm v.rows rows
    × (v.warnings ≢ [])
evaluate_query-broken_filter_example =
    evaluate_query-broken_filter natural rows (state ∷ []) broken_board here none
      broken_has_problems
