-- ===== src/Strings/Lines.antt =====
-- Lines: `Split` by a character, `Join`, `Prefix` and `IndentAllLines`.
use learning_journey.Base.{
  ℕ, ◌<◌, ◌≡◌, refl, sym, ◌∙◌, ap, true, false, List, [], ◌∷◌, ◌++◌, map, ◌==◌, arith, length, All,
  append_assoc, append_nil,
}
use learning_journey.Strings.{String, newline, split_lines, split_char, join, append_each, prefix}

abbrev pub NoChar : ℕ → String → Type 0
NoChar c s = All (λ x. (x == c) ≡ false) s

-- Lines of which none has the character, and of which the last is not empty.
abbrev pub AreLines : ℕ → List String → Type 0
AreLines c [] = Unit
AreLines c (l ∷ []) = NoChar c l × (0 < length l)
AreLines c (l ∷ lines) = NoChar c l × AreLines c lines

char_read :
    (c x : ℕ) (s temp : String)
    → (x == c) ≡ false
    → split_lines c (x ∷ s) temp ≡ split_lines c s (temp ++ (x ∷ []))
unfolding split_lines
char_read c x s temp not_c = rw (not_c, split_lines) refl

line_ended : (c : ℕ) (s temp : String) → split_lines c (c ∷ s) temp ≡ temp ∷ split_lines c s []
unfolding split_lines
line_ended c s temp = let same : (c == c) ≡ true = ground arith in rw (same, split_lines) refl

line_read :
    (c : ℕ) (l rest temp : String)
    → NoChar c l
    → split_lines c (l ++ rest) temp ≡ split_lines c rest (temp ++ l)
line_read c [] rest temp none_c = ap (split_lines c rest) (sym (append_nil temp))
line_read c (x ∷ l) rest temp (not_c, none_c) =
    char_read c x (l ++ rest) temp not_c
    ∙ line_read c l rest (temp ++ (x ∷ [])) none_c
    ∙ ap (split_lines c rest) (append_assoc temp (x ∷ []) l)

each-append :
    (sep a b : String) (lines : List String)
    → append_each lines sep (a ++ b) ≡ a ++ append_each lines sep b
each-append sep a b [] = refl
each-append sep a b (l ∷ lines) =
    ap (append_each lines sep) (append_assoc a b (sep ++ l))
    ∙ each-append sep a (b ++ (sep ++ l)) lines

line_then :
    (c : ℕ) (l m : String) (lines : List String)
    → append_each (m ∷ lines) (c ∷ []) l ≡ l ++ (c ∷ append_each lines (c ∷ []) m)
line_then c l m lines =
    each-append (c ∷ []) l (c ∷ m) lines ∙ ap (λ s. l ++ s) (each-append (c ∷ []) (c ∷ []) m lines)

last_read : (c : ℕ) (l : String) → 0 < length l → split_lines c [] l ≡ l ∷ []
unfolding split_lines
last_read c [] some_char = absurd (omega arith)
last_read c (x ∷ l) some_char = refl

-- Splitting what was joined by a character gives the strings again, when none of them has the
-- character and the last is not empty.
pub split_char-join :
    (c : ℕ) (lines : List String) → AreLines c lines → split_char (join lines (c ∷ [])) c ≡ lines
unfolding split_char join split_lines
split_char-join c [] are = refl
split_char-join c (l ∷ []) (none_c, some_char) =
    ap (λ s. split_lines c s []) (sym (append_nil l))
    ∙ line_read c l [] [] none_c
    ∙ last_read c l some_char
split_char-join c (l ∷ m ∷ lines) (none_c, are) =
    ap (λ s. split_lines c s []) (line_then c l m lines)
    ∙ line_read c l (c ∷ append_each lines (c ∷ []) m) [] none_c
    ∙ line_ended c (append_each lines (c ∷ []) m) l
    ∙ ap (λ ls. l ∷ ls) (split_char-join c (m ∷ lines) are)

prefix_of :
    (str pre : String) (lines : List String)
    → split_char str newline ≡ lines
    → prefix str pre ≡ join (map (λ l. pre ++ l) lines) (newline ∷ [])
unfolding prefix join
prefix_of str pre [] e = rw (e, prefix) refl
prefix_of str pre (l ∷ lines) e = rw (e, prefix) refl

-- A prefix is put before every line, and before none of what is empty.
pub prefix-join :
    (lines : List String) (pre : String)
    → AreLines newline lines
    → prefix (join lines (newline ∷ [])) pre ≡ join (map (λ l. pre ++ l) lines) (newline ∷ [])
prefix-join lines pre are =
    prefix_of (join lines (newline ∷ [])) pre lines (split_char-join newline lines are)
