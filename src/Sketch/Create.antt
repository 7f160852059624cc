-- ===== src/Sketch/Create.antt =====
-- The constructor, `Clear` and the moves.
use learning_journey.Base.{
  ℕ, zero, suc, ◌+◌, ◌<◌, ◌≡◌, refl, ap, ap₂, ◌∙◌, List, [], ◌∷◌, arith, length, replicate,
  length-replicate, All, All-replicate, get_or-replicate, Returns, ok, throw, invalid_argument,
  true, false, ◌⊎◌, inl, inr,
}
use mathlib.Core.Path.{subst}
use learning_journey.Sketch.{
  Matrix, Sketch, cell, new_row, new_rows, zero_row, zero_rows, make_hash_functions, new_sketch,
  clear, move_construct, move_assign, emptied,
}
use learning_journey.Sketch.Shape.{IsShape, IsValid}

length-new_row : (raw : ℕ → ℕ) (j n : ℕ) → length (new_row raw j n) ≡ n
unfolding new_row
length-new_row raw j zero = refl
length-new_row raw j (suc n) = ap suc (length-new_row raw (j + 1) n)

new_rows-IsShape : (raw : ℕ → ℕ → ℕ) (d i n : ℕ) → IsShape n d (new_rows raw d i n)
unfolding new_rows
new_rows-IsShape raw d i zero = record { rows = refl; columns = tt }
new_rows-IsShape raw d i (suc n) =
    let rest = new_rows-IsShape raw d (i + 1) n in
    record { rows = ap suc rest.rows; columns = (length-new_row (raw i) 0 d, rest.columns) }

zero_row-eq-replicate :
    (n : ℕ) (cells : List ℕ) → length cells ≡ n → zero_row n cells ≡ replicate n 0
unfolding zero_row
zero_row-eq-replicate zero [] h = refl
zero_row-eq-replicate zero (c ∷ cells) h = absurd (omega arith)
zero_row-eq-replicate (suc n) [] h = absurd (omega arith)
zero_row-eq-replicate (suc n) (c ∷ cells) h =
    ap (λ l. 0 ∷ l) (zero_row-eq-replicate n cells (omega arith))

abbrev zeros : ℕ → ℕ → Matrix
zeros w d = replicate w (replicate d 0)

zero_rows-eq-zeros :
    (n d : ℕ) (m : Matrix)
    → length m ≡ n
    → All (λ row. length row ≡ d) m
    → zero_rows n d m ≡ zeros n d
unfolding zero_rows
zero_rows-eq-zeros zero d [] h a = refl
zero_rows-eq-zeros zero d (r ∷ m) h a = absurd (omega arith)
zero_rows-eq-zeros (suc n) d [] h a = absurd (omega arith)
zero_rows-eq-zeros (suc n) d (r ∷ m) h a =
    ap₂ ◌∷◌ (zero_row-eq-replicate d r a.0) (zero_rows-eq-zeros n d m (omega arith) a.1)

cell-zeros : (w d r c : ℕ) → cell (zeros w d) r c ≡ 0
cell-zeros zero d r c = refl
cell-zeros (suc w) d zero c = get_or-replicate d c 0
cell-zeros (suc w) d (suc r) c = cell-zeros w d r c

abbrev fresh : ℕ → ℕ → Sketch
fresh w d = record {
  width = w;
  depth = d;
  matrix = zeros w d;
  hash_functions = make_hash_functions 0 d;
}

fresh-IsValid : (w d : ℕ) → 0 < w → 0 < d → IsValid (fresh w d)
fresh-IsValid w d hw hd = record {
  shape = record {
    rows = length-replicate w _;
    columns = All-replicate (λ row. length row ≡ d) w _ (length-replicate d 0);
  };
  wide = hw;
  deep = hd;
  bounded = λ r c. omega (arith, cell-zeros w d r c);
  seeded = refl;
}

pub new_sketch-eq-fresh :
    (raw : ℕ → ℕ → ℕ) (w d : ℕ) → 0 < w → 0 < d → new_sketch raw w d ≡ ok (fresh w d)
unfolding new_sketch
new_sketch-eq-fresh raw w d hw hd =
    let shape = new_rows-IsShape raw d 0 w in
    rw (← zero_rows-eq-zeros w d (new_rows raw d 0 w) shape.rows shape.columns) (ground arith)

-- Whatever the memory held, a sketch with zero width or depth is refused with
-- `std::invalid_argument`, and any other is a valid sketch, of that width and depth, whose counters
-- are all zero.
pub new_sketch_lem :
    (raw : ℕ → ℕ → ℕ) (w d : ℕ)
    → ((w ≡ 0) ⊎ (d ≡ 0) → new_sketch raw w d ≡ throw invalid_argument)
      × (0 < w
          → 0 < d
          → Returns
              (new_sketch raw w d)
              λ s. IsValid s × (s.width ≡ w) × (s.depth ≡ d) × ((r c : ℕ) → cell s.matrix r c ≡ 0))
unfolding new_sketch
new_sketch_lem raw w d = (
  λ h. ground arith,
  λ hw hd. (
    fresh w d,
    unfold new_sketch in new_sketch-eq-fresh raw w d hw hd,
    (fresh-IsValid w d hw hd, refl, refl, cell-zeros w d),
  ),
)

-- `Clear` takes a valid sketch to the one that the constructor makes with its width and depth.
pub clear-eq-new_sketch :
    (raw : ℕ → ℕ → ℕ) {s : Sketch} → IsValid s → new_sketch raw s.width s.depth ≡ ok (clear s)
unfolding clear
clear-eq-new_sketch raw {s} v =
    new_sketch-eq-fresh raw s.width s.depth v.wide v.deep
    ∙ ap ok
        (cc (zero_rows-eq-zeros s.width s.depth s.matrix v.shape.rows v.shape.columns, v.seeded))

-- The move constructor and the move assignment hand a valid sketch over as it is and leave an
-- emptied one behind; an assignment to itself changes nothing.
pub move_keeps :
    (t : Sketch) {s : Sketch}
    → IsValid s
    → (move_construct s ≡ (s, emptied))
      × (move_assign false t s ≡ (s, emptied))
      × (move_assign true s s ≡ (s, s))
unfolding move_construct move_assign
move_keeps t v = (cc (v.seeded), cc (v.seeded), refl)

-- What a client may assume of a sketch that the constructor returned.
pub record IsNew (w d : ℕ) (s : Sketch) : Type 0 where
  pub valid : IsValid s
  pub width : s.width ≡ w
  pub depth : s.depth ≡ d
  pub empty : (r c : ℕ) → cell s.matrix r c ≡ 0

pub new_sketch-eq_ok :
    (raw raw' : ℕ → ℕ → ℕ) (w d : ℕ) {s t : Sketch}
    → new_sketch raw w d ≡ ok s
    → new_sketch raw' w d ≡ ok t
    → s ≡ t
new_sketch-eq_ok raw raw' zero d p q = cc ((new_sketch_lem raw 0 d).0 (inl refl))
new_sketch-eq_ok raw raw' (suc w) zero p q = cc ((new_sketch_lem raw (suc w) 0).0 (inr refl))
new_sketch-eq_ok raw raw' (suc w) (suc d) p q = cc (
  new_sketch-eq-fresh raw (suc w) (suc d) (omega arith) (omega arith),
  new_sketch-eq-fresh raw' (suc w) (suc d) (omega arith) (omega arith),
)

pub new_sketch-IsNew :
    (raw : ℕ → ℕ → ℕ) (w d : ℕ) {s : Sketch} → new_sketch raw w d ≡ ok s → IsNew w d s
new_sketch-IsNew raw zero d made = cc ((new_sketch_lem raw 0 d).0 (inl refl))
new_sketch-IsNew raw (suc w) zero made = cc ((new_sketch_lem raw (suc w) 0).0 (inr refl))
new_sketch-IsNew raw (suc w) (suc d) {s} made = subst (IsNew (suc w) (suc d)) same (record {
  valid = fresh-IsValid (suc w) (suc d) (omega arith) (omega arith);
  width = refl;
  depth = refl;
  empty = cell-zeros (suc w) (suc d);
})
  where
    same : fresh (suc w) (suc d) ≡ s
    same = cc (new_sketch-eq-fresh raw (suc w) (suc d) (omega arith) (omega arith))
