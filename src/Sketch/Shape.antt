-- ===== src/Sketch/Shape.antt =====
-- The representation invariant of a sketch, and what one increment does to the matrix.
use learning_journey.Base.{
  ℕ, ◌+◌, ◌^◌, ◌<◌, ◌≡◌, sym, ◌∙◌, ◌&&◌, [], arith, Bool-cases, u32, ◌==◌, if◌then◌else◌, length,
  get_or, length-set, All, All-get_or, All-set, get_or-set, get_or_ext, inl, inr,
}
use learning_journey.Sketch.{Matrix, Sketch, cell, bump, make_hash_functions}

-- `width` rows of `depth` counters each.
pub record IsShape (width depth : ℕ) (m : Matrix) : Type 0 where
  pub rows : length m ≡ width
  pub columns : All (λ row. length row ≡ depth) m

pub record IsValid (s : Sketch) : Type 0 where
  pub shape : IsShape s.width s.depth s.matrix
  pub wide : 0 < s.width
  pub deep : 0 < s.depth
  pub bounded : (r c : ℕ) → cell s.matrix r c < 2 ^ 32
  pub seeded : s.hash_functions ≡ make_hash_functions 0 s.depth

module _ {w d : ℕ} {m : Matrix} (shape : IsShape w d m) where
  pub length-row : (r : ℕ) → r < w → length (get_or m r []) ≡ d
  length-row r h = All-get_or (λ row. length row ≡ d) m r [] shape.columns (omega arith)

  module _ (r c : ℕ) (hr : r < w) (hc : c < d) where
    pub bump-IsShape : IsShape w d (bump r c m)
    unfolding bump
    bump-IsShape = record {
      rows = length-set m r _ ∙ shape.rows;
      columns =
          All-set (λ row. length row ≡ d) m r _ shape.columns
            (length-set (get_or m r []) c _ ∙ length-row r hr);
    }

    -- One counter goes up by one in 32 bits, and no other changes.
    pub cell-bump :
        (r' c' : ℕ)
        → cell (bump r c m) r' c'
          ≡ (if r == r' && c == c' then u32 (cell m r c + 1) else cell m r' c')
    unfolding bump
    cell-bump r' c' =
        rw (get_or-set m r r' _ [] (omega (arith, shape.rows))) (elim (Bool-cases (r == r')) [
          | inl e ↦ ground (
            arith,
            get_or-set (get_or m r []) c c' (u32 (cell m r c + 1)) 0
                (omega (arith, length-row r hr)),
          )
          | inr e ↦ ground arith
        ])

-- Two matrices of one shape with the same counters are one matrix.
pub cell_ext :
    {w d : ℕ} {m n : Matrix}
    → IsShape w d m
    → IsShape w d n
    → ((r c : ℕ) → r < w → c < d → cell m r c ≡ cell n r c)
    → m ≡ n
cell_ext {m = m} {n = n} p q h = get_or_ext m n [] (omega (arith, p.rows, q.rows)) λ r hr.
    get_or_ext (get_or m r []) (get_or n r []) 0
      (length-row p r (omega (arith, p.rows)) ∙ sym (length-row q r (omega (arith, p.rows))))
      λ c hc.
        h r c (omega (arith, p.rows))
          (omega (arith, p.rows, length-row p r (omega (arith, p.rows))))
