-- ===== src/Strings.antt =====
-- bustub/src/common/util/string_util.cpp. A string is the list of its characters, shorter than 2^63,
-- so that a `size_t` does not wrap; `find` and `substr` are those of `std::string`, and the loops
-- that search with them are on fuel. The exceptions of a string that outgrows `max_size` or the
-- memory, which `Replace` makes of replacing the empty string by another, are not followed.
pub mod Search
pub mod Splits
pub mod Replaced
pub mod Counted
pub mod Lines
use learning_journey.Base.{
  ℕ, zero, suc, ◌+◌, ◌-◌, ◌%◌, ◌^◌, Bool, true, false, not, ◌&&◌, ◌||◌, List, [], ◌∷◌, ◌++◌, map,
  Option, some, none, Outcome, ok, throw, undefined, out_of_fuel, ◌>>=◌, ltb, leb, ◌==◌,
  if◌then◌else◌, length, take, drop, replicate,
}

abbrev pub String : Type 0
String = List ℕ

abbrev pub newline : ℕ
newline = 10

-- `std::isspace`
abbrev is_space : ℕ → Bool
is_space c = (c == 32) || (leb 9 c && leb c 13)

abbrev pub is_prefix : String → String → Bool
is_prefix [] s = true
is_prefix (x ∷ p) [] = false
is_prefix (x ∷ p) (y ∷ s) = (x == y) && is_prefix p s

-- Where a pattern first stands in a string.
unfoldable pub first : String → String → Option ℕ
first p [] = if is_prefix p [] then some 0 else none
first p (x ∷ s) =
    let rest = first p s in
    if is_prefix p (x ∷ s) then some 0 else elim rest [ none ↦ none | some i ↦ some (suc i) ]

-- `s.find(p, pos)`, with `none` for `npos`
unfoldable pub find : String → String → ℕ → Option ℕ
find s p pos = elim (leb pos (length s)) [
  | true ↦ elim (first p (drop pos s)) [ none ↦ none | some i ↦ some (pos + i) ]
  | false ↦ none
]

abbrev is_some {ℓ} : {A : Type ℓ} → Option A → Bool
is_some none = false
is_some (some a) = true

unfoldable pub contains : String → String → Bool
contains haystack needle = is_some (find haystack needle 0)

unfoldable pub contains_after : String → String → String → Bool
contains_after keyword haystack needle = elim (find haystack keyword 0) [
  | none ↦ false
  | some pos ↦ is_some (find haystack needle pos)
]

unfoldable pub l_trim : String → String
l_trim [] = []
l_trim (c ∷ s) = let rest = l_trim s in if is_space c then rest else c ∷ s

-- A character is erased when it is a space and so are all after it.
unfoldable pub r_trim : String → String
r_trim [] = []
r_trim (c ∷ s) = elim (r_trim s) [ [] ↦ if is_space c then [] else c ∷ [] | d ∷ t ↦ c ∷ (d ∷ t) ]

unfoldable pub indent : ℕ → String
indent num_indent = replicate num_indent 32

-- `std::equal` from `str.begin()` on, which reads past the end of a shorter string.
unfoldable pub starts_with : String → String → Outcome Bool
starts_with str [] = ok true
starts_with [] (p ∷ prefix) = throw undefined
starts_with (c ∷ str) (p ∷ prefix) =
    let rest = starts_with str prefix in if c == p then rest else ok false

abbrev equal : String → String → Bool
equal [] [] = true
equal (x ∷ xs) (y ∷ ys) = (x == y) && equal xs ys
equal _ _ = false

unfoldable pub ends_with : String → String → Bool
ends_with str suffix =
    if ltb (length str) (length suffix)
    then false
    else equal suffix (drop (length str - length suffix) str)

-- `static_cast<int>` of the number of rounds, which are none when it is negative.
unfoldable pub repeat_rounds : ℕ → ℕ
repeat_rounds n = if ltb (n % 2 ^ 32) (2 ^ 31) then n % 2 ^ 32 else 0

abbrev append_times : ℕ → String → String → String
append_times zero str os = os
append_times (suc n) str os = append_times n str (os ++ str)

unfoldable pub repeat : String → ℕ → String
unfolding repeat_rounds
repeat [] n = []
repeat (c ∷ str) n = append_times (repeat_rounds n) (c ∷ str) []

-- The rounds of `std::getline`, which fails when no character is left; `temp` is the line so far.
unfoldable pub split_lines : ℕ → String → String → List String
split_lines delimiter [] [] = []
split_lines delimiter [] (c ∷ temp) = (c ∷ temp) ∷ []
split_lines delimiter (c ∷ str) temp =
    if c == delimiter
    then temp ∷ split_lines delimiter str []
    else split_lines delimiter str (temp ++ (c ∷ []))

unfoldable pub split_char : String → ℕ → List String
split_char str delimiter = split_lines delimiter str []

abbrev append_each : List String → String → String → String
append_each [] separator result = result
append_each (s ∷ input) separator result = append_each input separator (result ++ (separator ++ s))

-- Fewer than 2^32 strings.
unfoldable pub join : List String → String → String
join [] separator = []
join (s ∷ input) separator = append_each input separator s

-- The lines, each after `std::endl` but the first.
unfoldable pub prefix : String → String → String
unfolding split_char split_lines
prefix str pre = elim (split_char str newline) [
  | [] ↦ []
  | line ∷ lines ↦ append_each (map (λ l. pre ++ l) lines) (newline ∷ []) (pre ++ line)
]

unfoldable pub upper : String → String
upper = map (λ c. if leb 97 c && leb c 122 then c - 32 else c)

unfoldable pub lower : String → String
lower = map (λ c. if leb 65 c && leb c 90 then c + 32 else c)

-- `if (next == std::string::npos) next = input_len;`
abbrev pub found_or : Option ℕ → ℕ → ℕ
found_or none n = n
found_or (some i) n = i

-- `if (!substr.empty()) splits.push_back(substr);`
abbrev pub push : String → List String → List String
push [] splits = splits
push (c ∷ s) splits = (c ∷ s) ∷ splits

-- The rounds of `Split` from `last`.
unfoldable pub split_loop : ℕ → String → String → ℕ → Outcome (List String)
split_loop zero input split last = throw out_of_fuel
split_loop (suc fuel) input split last = elim (leb last (length input)) [
  | false ↦ ok []
  | true ↦
      let next = found_or (find input split last) (length input) in
      split_loop fuel input split (next + length split) >>= λ splits.
      ok (push (take (next - last) (drop last input)) splits)
]

unfoldable pub split_string : ℕ → String → String → Outcome (List String)
split_string fuel input split = split_loop fuel input split 0

unfoldable pub count_loop : ℕ → String → String → Option ℕ → ℕ → Outcome ℕ
count_loop zero input str n_pos count = throw out_of_fuel
count_loop (suc fuel) input str none count = ok count
count_loop (suc fuel) input str (some n) count =
    count_loop fuel input str (find input str (n + 1)) (count + 1)

unfoldable pub count : ℕ → String → String → Outcome ℕ
count fuel input str = count_loop fuel input str (find input str 0) 0

unfoldable pub strip : String → ℕ → String
strip [] c = []
strip (x ∷ str) c = let rest = strip str c in if x == c then rest else x ∷ rest

unfoldable pub replace_loop : ℕ → String → String → String → ℕ → Outcome String
replace_loop zero source from to start_pos = throw out_of_fuel
replace_loop (suc fuel) source from to start_pos = elim (find source from start_pos) [
  | none ↦ ok source
  | some n ↦
      replace_loop fuel (take n source ++ (to ++ drop (n + length from) source)) from to
        (n + length to)
]

unfoldable pub replace : ℕ → String → String → String → Outcome String
replace fuel source from to = replace_loop fuel source from to 0

unfoldable pub indent_all_lines : String → ℕ → Bool → String
unfolding split_char split_lines indent join
indent_all_lines lines num_indent except_first_line = elim (split_char lines newline) [
  | [] ↦ []
  | line ∷ rest ↦
      join
        ((if except_first_line then line else indent num_indent ++ line)
          ∷ map (λ l. indent num_indent ++ l) rest)
        (newline ∷ [])
]
