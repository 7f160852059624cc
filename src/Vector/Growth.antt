-- ===== src/Vector/Growth.antt =====
-- `reserve` and `push_back`.
use mathlib.Core.List.{append_assoc, map-append}
use native.Mathlib.Decide.{dec_lt}
use learning_journey.Base.{
  ℕ, suc, ◌+◌, ◌-◌, ◌*◌, ◌^◌, ◌≤◌, ◌<◌, ◌≡◌, refl, sym, ap, ap₂, ◌∙◌, Bool, true, false, List, [],
  ◌∷◌, ◌++◌, map, arith, ok, throw, undefined, length, length-append, length-map, set, ◌>>=◌,
  get_elem?, get_elem?-append, set-append, replicate, leb, ◌==◌, if◌then◌else◌, some,
}
use learning_journey.Vector.{
  Slot, raw, object, Ref, outside, inside, live, freed, read, assign, relocate, deallocate,
  reserve_from, reserve, grown, look, store_last, push_back,
}
use learning_journey.Vector.Slots.{relocate_middle}
use learning_journey.Vector.Copies.{vec, Available, allocate-ok, replicate-split, get_elem?-objects}

-- `cap == 0 ? 1 : cap * 2`
abbrev pub doubled : ℕ → ℕ
doubled cap = if cap == 0 then 1 else cap * 2

module _ {T : Type 0} where
  -- The first raw slot of a vector with room to spare.
  spare :
      (xs : List T) (cap : ℕ)
      → length xs < cap
      → (vec xs cap).elem ≡ map object xs ++ (raw ∷ replicate (cap - (length xs + 1)) raw)
  spare xs cap h =
      ap (λ k. map object xs ++ replicate k raw) {y = suc (cap - (length xs + 1))} (omega arith)

  length-objects : (xs : List T) → length (map object xs) ≡ length xs
  length-objects xs = length-map object xs

  set_spare :
      (xs : List T) (cap : ℕ) (x : T)
      → length xs < cap
      → set (vec xs cap).elem (length xs) (object x) ≡ (vec (xs ++ (x ∷ [])) cap).elem
  set_spare xs cap x h =
      let tail = replicate {A = Slot T} (cap - (length xs + 1)) raw in
      ap₂ (λ l i. set l i (object x)) (spare xs cap h) (sym (length-objects xs))
      ∙ set-append (map object xs) raw (object x) tail
      ∙ sym (append_assoc (map object xs) (object x ∷ []) tail)
      ∙ ap₂ (λ l k. l ++ replicate (cap - k) raw) (sym (map-append object xs (x ∷ [])))
          (sym (length-append xs (x ∷ [])))

  assign_spare :
      (xs : List T) (cap : ℕ) (x : T)
      → length xs < cap
      → (assign true (vec xs cap).elem (length xs) x ≡ ok (vec (xs ++ (x ∷ [])) cap).elem)
        × (assign false (vec xs cap).elem (length xs) x ≡ throw undefined)
  unfolding assign
  assign_spare xs cap x h =
      let tail = replicate {A = Slot T} (cap - (length xs + 1)) raw in
      let found : get_elem? (vec xs cap).elem (length xs) ≡ some raw =
        ap₂ get_elem? (spare xs cap h) (sym (length-objects xs))
        ∙ get_elem?-append (map object xs) raw tail in
      (rw found (ap ok (set_spare xs cap x h)), rw found refl)

  store_last-vec :
      (xs : List T) (cap : ℕ) (x : T)
      → length xs < cap
      → (store_last true (vec xs cap) x ≡ ok (vec (xs ++ (x ∷ [])) cap))
        × (store_last false (vec xs cap) x ≡ throw undefined)
  unfolding store_last
  store_last-vec xs cap x h =
      let (stored, refused) = assign_spare xs cap x h in
      (
        rw stored (
            ap (λ k. ok (record { elem = (vec (xs ++ (x ∷ [])) cap).elem; sz = k; cap = cap }))
              (sym (length-append xs (x ∷ [])))),
        rw refused refl,
      )

module _ {T : Type 0} (size : ℕ) (new_ok : ℕ → Bool) where
  moved :
      (xs : List T) (cap n : ℕ)
      → length xs ≤ cap
      → cap < n
      → Available size new_ok n
      → reserve_from size new_ok (vec xs cap) n ≡ ok (vec xs n, deallocate (vec xs cap).elem)
  unfolding reserve_from
  moved xs cap n h big a =
      let copied : relocate (length xs) 0 (vec xs cap).elem (replicate n raw)
          ≡ ok (map object xs ++ replicate (n - length xs) raw) =
        ap (relocate (length xs) 0 (vec xs cap).elem) (replicate-split (length xs) n (omega arith))
        ∙ relocate_middle xs 0 [] (replicate (cap - length xs) raw) []
            (replicate (n - length xs) raw) refl refl in
      let test : leb n cap ≡ false = ground arith in rw (test, allocate-ok n a, copied) refl

  -- `reserve` of no more than the capacity changes nothing; of more, where the storage can be had, it
  -- moves every element to a block of exactly that capacity.
  pub reserve-vec :
      (xs : List T) (cap n : ℕ)
      → length xs ≤ cap
      → (n ≤ cap → reserve size new_ok (vec xs cap) n ≡ ok (vec xs cap))
        × (cap < n → Available size new_ok n → reserve size new_ok (vec xs cap) n ≡ ok (vec xs n))
  unfolding reserve reserve_from
  reserve-vec xs cap n h = (
    λ small. let test : leb n cap ≡ true = ground arith in rw test refl,
    λ big a. ap (λ r. r >>= λ (w, _). ok w) (moved xs cap n h big a),
  )

  module _ (xs : List T) (cap : ℕ) (x : T) where
    room_left :
        (trivial : Bool) (value : Ref T)
        → length xs < cap
        → look (live (vec xs cap).elem) value ≡ ok x
        → push_back size new_ok trivial (vec xs cap) value ≡ store_last trivial (vec xs cap) x
    unfolding push_back
    room_left trivial value h e =
        let test : length xs == cap ≡ false = ground arith in rw (test, e) refl

    full :
        (trivial : Bool) (value : Ref T)
        → length xs ≡ cap
        → cap * 2 < 2 ^ 31
        → Available size new_ok (doubled cap)
        → push_back size new_ok trivial (vec xs cap) value ≡ (
            look (deallocate (vec xs cap).elem) value >>= store_last trivial (vec xs (doubled cap)))
    unfolding push_back grown
    full trivial value e small a =
        let test : length xs == cap ≡ true = ground arith in
        let next : grown cap ≡ ok (doubled cap) = ground arith in
        rw (test, next, moved xs cap (doubled cap) (omega arith) (ground arith) a) refl

  -- For a type whose objects start by assignment: `push_back` appends the element, whether it comes
  -- from outside or from the vector itself, where there is room; a full vector doubles its capacity
  -- (or goes from 0 to 1) and appends an element from outside, where that capacity is an `int` and
  -- the storage can be had.
  pub push_back-vec :
      (xs : List T) (cap : ℕ) (x : T)
      → (length xs < cap
          → (push_back size new_ok true (vec xs cap) (outside x) ≡ ok (vec (xs ++ (x ∷ [])) cap))
            × ((i : ℕ)
                → get_elem? xs i ≡ some x
                → push_back size new_ok true (vec xs cap) (inside i)
                  ≡ ok (vec (xs ++ (x ∷ [])) cap)))
        × (length xs ≡ cap
            → cap * 2 < 2 ^ 31
            → Available size new_ok (doubled cap)
            → push_back size new_ok true (vec xs cap) (outside x)
              ≡ ok (vec (xs ++ (x ∷ [])) (doubled cap)))
  unfolding look read
  push_back-vec xs cap x = (
    λ h.
        let stored = (store_last-vec xs cap x h).0 in
        (
          room_left xs cap x true (outside x) h refl ∙ stored,
          λ i e.
              let spare = replicate {A = Slot T} (cap - length xs) raw in
              let found = (get_elem?-objects xs spare i x e).1 in
              room_left xs cap x true (inside i) h (rw found refl) ∙ stored,
        ),
    λ h small a.
        full xs cap x true (outside x) h small a
        ∙ (store_last-vec xs (doubled cap) x (ground arith)).0,
  )

  given_back :
      (xs : List T) (cap i : ℕ) (x : T)
      → get_elem? xs i ≡ some x
      → deallocate (vec xs cap).elem ≡ freed
  unfolding deallocate
  given_back [] cap i x e = absurd cc
  given_back (y ∷ xs) cap i x e = refl

  -- `push_back` onto a full vector of an element of the vector itself is undefined, whatever the
  -- type, where the doubled capacity is an `int` and its storage can be had: `reserve` gives the block
  -- back in which the element stands before the element is read.
  pub push_back_dangling :
      (xs : List T) (cap i : ℕ) (x : T) (trivial : Bool)
      → length xs ≡ cap
      → cap * 2 < 2 ^ 31
      → Available size new_ok (doubled cap)
      → get_elem? xs i ≡ some x
      → push_back size new_ok trivial (vec xs cap) (inside i) ≡ throw undefined
  unfolding look
  push_back_dangling xs cap i x trivial h small a e =
      full xs cap x trivial (inside i) h small a ∙ rw (given_back xs cap i x e) refl

  -- For a type whose objects start only by construction, every `push_back` of a value from outside
  -- assigns to an object that is not there.
  pub push_back_unconstructed :
      (xs : List T) (cap : ℕ) (x : T)
      → length xs ≤ cap
      → cap * 2 < 2 ^ 31
      → Available size new_ok (doubled cap)
      → push_back size new_ok false (vec xs cap) (outside x) ≡ throw undefined
  unfolding look
  push_back_unconstructed xs cap x h small a = elim (dec_lt (length xs) cap) [
    | yes p ↦ room_left xs cap x false (outside x) p refl ∙ (store_last-vec xs cap x p).1
    | no p ↦
        full xs cap x false (outside x) (omega arith) small a
        ∙ (store_last-vec xs (doubled cap) x (ground arith)).1
  ]
