-- ===== src/Tests/Strings.antt =====
-- Runs on short strings.
use learning_journey.Base.{
  ◌<◌, ◌≡◌, refl, List, [], ◌∷◌, ◌++◌, ok, throw, undefined, out_of_fuel, arith,
}
use learning_journey.Strings.{
  String, first, find, split_loop, split_string, replace_loop, replace, count_loop, count,
  split_lines, split_char, join, starts_with,
}
use learning_journey.Strings.Search.{Cut}
use learning_journey.Strings.Splits.{non_empty, split_string-Cut}
use learning_journey.Strings.Replaced.{replace-Cut, stuck_on_empty}
use learning_journey.Strings.Counted.{places, count_lem}
use learning_journey.Strings.Lines.{split_char-join}

-- "a,b,,c" with 44 for the comma
abbrev fields : String
fields = 97 ∷ 44 ∷ 98 ∷ 44 ∷ 44 ∷ 99 ∷ []

abbrev comma : String
comma = 44 ∷ []

fields_split : split_string 8 fields comma ≡ ok ((97 ∷ []) ∷ (98 ∷ []) ∷ (99 ∷ []) ∷ [])
unfolding split_string split_loop find first
fields_split = refl

longer : 0 < 1
longer = omega arith

rounds : 7 < 8
rounds = omega arith

fewer_rounds : 6 < 7
fewer_rounds = omega arith

split_string-Cut_example :
    (pieces : List String) × (end_piece : String) × Cut comma fields pieces end_piece
    × (split_string 8 fields comma ≡ ok (non_empty (pieces ++ (end_piece ∷ []))))
split_string-Cut_example = split_string-Cut fields comma 8 longer rounds

-- The comma is replaced by two.
fields_replaced :
    replace 7 fields comma (44 ∷ 44 ∷ []) ≡ ok (97 ∷ 44 ∷ 44 ∷ 98 ∷ 44 ∷ 44 ∷ 44 ∷ 44 ∷ 99 ∷ [])
unfolding replace replace_loop find first
fields_replaced = refl

replace-Cut_example :
    (pieces : List String) × (last : String) × Cut comma fields pieces last
    × (join (pieces ++ (last ∷ [])) comma ≡ fields)
    × (replace 7 fields comma (44 ∷ 44 ∷ []) ≡ ok (join (pieces ++ (last ∷ [])) (44 ∷ 44 ∷ [])))
replace-Cut_example = replace-Cut fields comma (44 ∷ 44 ∷ []) 7 longer fewer_rounds

stuck_on_empty_example :
    (split_string 9 fields [] ≡ throw out_of_fuel) × (replace 9 fields [] [] ≡ throw out_of_fuel)
stuck_on_empty_example = stuck_on_empty 9 fields

count_lem_example : count 8 fields comma ≡ ok (places comma fields)
count_lem_example = count_lem fields comma 8 rounds

three_commas : count 8 fields comma ≡ ok 3
unfolding count count_loop find first
three_commas = refl

split_char-join_example :
    split_char (join ((97 ∷ []) ∷ [] ∷ (98 ∷ []) ∷ []) comma) 44 ≡ (97 ∷ []) ∷ [] ∷ (98 ∷ []) ∷ []
split_char-join_example =
    split_char-join 44 ((97 ∷ []) ∷ [] ∷ (98 ∷ []) ∷ []) ((refl, tt), (tt, ((refl, tt), longer)))

-- A line that ends the string and is empty is not read.
last_line_lost : split_char (97 ∷ 44 ∷ []) 44 ≡ (97 ∷ []) ∷ []
unfolding split_char split_lines
last_line_lost = refl

past_the_end : starts_with (97 ∷ []) (97 ∷ 44 ∷ []) ≡ throw undefined
unfolding starts_with
past_the_end = refl
