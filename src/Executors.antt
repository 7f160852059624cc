-- ===== src/Executors.antt =====
-- bustub/src/execution/filter_executor.cpp and projection_executor.cpp, which hand on batches of
-- tuples, and `PollExecutor` of bustub/src/include/execution/execution_engine.h, which asks for
-- them. A child executor is the list of the batches that its `Next` will give before it is false;
-- when it is false it leaves its batch empty. A tuple goes with its identifier, and the value of an
-- expression for it is a parameter. `child_rids_` goes with `child_tuples_`.
pub mod Batches
pub mod Scan
pub mod Filter
pub mod Projection
pub mod Pipeline
use learning_journey.Base.{
  ℕ, zero, suc, ◌+◌, Bool, true, false, List, [], ◌∷◌, ◌++◌, Option, none, some, Outcome, ok, throw,
  out_of_fuel, ◌>>=◌, ltb, leb, ◌==◌, if◌then◌else◌, length, drop,
}

pub record Executor {ℓ} (T : Type ℓ) : Type ℓ where
  pub child : List (List T)
  pub child_tuples : List T
  pub child_offset : ℕ

-- A call of `Next`: its status, the batch and what the executor is then.
pub record Step {ℓ κ} (T : Type ℓ) (U : Type κ) : Type (ℓ ⊔ κ) where
  pub status : Bool
  pub batch : List U
  pub after : Executor T

abbrev pub is_empty {ℓ} : {A : Type ℓ} → List A → Bool
is_empty [] = true
is_empty (x ∷ xs) = false

-- The offset after a full batch at tuple `i`.
abbrev pub offset_after {ℓ} : {T : Type ℓ} → List T → ℕ → ℕ
offset_after tuples i = if ltb (i + 1) (length tuples) then i + 1 else 0

-- The tuples that a full batch left of the last batch of the child.
abbrev pub left_over {ℓ} : {T : Type ℓ} → Executor T → List T
left_over ex = if ex.child_offset == 0 then [] else drop ex.child_offset ex.child_tuples

-- `Next` after the child gave nothing.
abbrev pub ended {ℓ κ} : {T : Type ℓ} {U : Type κ} → List U → Step T U
ended batch = record {
  status = if is_empty batch then false else true;
  batch = batch;
  after = record { child = []; child_tuples = []; child_offset = 0 };
}

-- `Next` with a full batch at tuple `i`.
abbrev pub full {ℓ κ} : {T : Type ℓ} {U : Type κ} → List (List T) → List T → ℕ → List U → Step T U
full child tuples i batch = record {
  status = true;
  batch = batch;
  after = record { child = child; child_tuples = tuples; child_offset = offset_after tuples i };
}

-- `Next` with a batch that is not full, after which nothing is left over.
abbrev pub part {ℓ κ} : {T : Type ℓ} {U : Type κ} → List (List T) → List T → List U → Step T U
part child tuples batch = record {
  status = if is_empty batch then false else true;
  batch = batch;
  after = record { child = child; child_tuples = tuples; child_offset = 0 };
}

module _ {ℓ} {T : Type ℓ} (passes : T → Outcome Bool) (batch_size : ℕ) where
  -- The loop over what is left of the last batch.
  unfoldable pub filter_left : List T → List T → Outcome (List T)
  filter_left [] batch = ok batch
  filter_left (t ∷ ts) batch =
      passes t >>= λ p. filter_left ts (if p then batch ++ (t ∷ []) else batch)

  -- The loop over a batch from tuple `i`, and at which tuple the output is full.
  unfoldable pub filter_batch : List T → ℕ → List T → Outcome (Option ℕ × List T)
  filter_batch [] i batch = ok (none, batch)
  filter_batch (t ∷ ts) i batch = passes t >>= λ p. elim p [
    | true ↦ elim (leb batch_size (length (batch ++ (t ∷ [])))) [
      | true ↦ ok (some i, batch ++ (t ∷ []))
      | false ↦ filter_batch ts (i + 1) (batch ++ (t ∷ []))
    ]
    | false ↦ filter_batch ts (i + 1) batch
  ]

  -- The rounds of `while (true)`, from the call of the child.
  unfoldable pub filter_fetch : List (List T) → List T → Outcome (Step T T)
  filter_fetch [] batch = ok (ended batch)
  filter_fetch (b ∷ child) batch = filter_batch b 0 batch >>= λ (filled, batch). elim filled [
    | some i ↦ ok (full child b i batch)
    | none ↦ filter_fetch child batch
  ]

  -- `FilterExecutor::Next`
  unfoldable pub filter_next : Executor T → Outcome (Step T T)
  filter_next ex = filter_left (left_over ex) [] >>= λ batch. filter_fetch ex.child batch

module _ {ℓ κ} {T : Type ℓ} {U : Type κ} (project : T → Outcome U) (batch_size : ℕ) where
  unfoldable pub project_left : List T → List U → Outcome (List U)
  project_left [] batch = ok batch
  project_left (t ∷ ts) batch = project t >>= λ u. project_left ts (batch ++ (u ∷ []))

  unfoldable pub project_batch : List T → ℕ → List U → Outcome (Option ℕ × List U)
  project_batch [] i batch = ok (none, batch)
  project_batch (t ∷ ts) i batch = project t >>= λ u.
      elim (leb batch_size (length (batch ++ (u ∷ [])))) [
        | true ↦ ok (some i, batch ++ (u ∷ []))
        | false ↦ project_batch ts (i + 1) (batch ++ (u ∷ []))
      ]

  -- The child is asked once.
  unfoldable pub project_fetch : List (List T) → List U → Outcome (Step T U)
  project_fetch [] batch = ok (ended batch)
  project_fetch (b ∷ child) batch = project_batch b 0 batch >>= λ (filled, batch). elim filled [
    | some i ↦ ok (full child b i batch)
    | none ↦ ok (record {
      status = if is_empty batch then false else true;
      batch = batch;
      after = record { child = child; child_tuples = b; child_offset = 0 };
    })
  ]

  -- `ProjectionExecutor::Next`
  unfoldable pub project_next : Executor T → Outcome (Step T U)
  project_next ex = project_left (left_over ex) [] >>= λ batch. project_fetch ex.child batch

-- `PollExecutor`, which keeps the batches apart.
unfoldable pub poll {ℓ κ} :
    {T : Type ℓ} {U : Type κ}
    → ℕ
    → (Executor T → Outcome (Step T U))
    → Executor T
    → Outcome (List (List U))
poll zero next ex = throw out_of_fuel
poll (suc fuel) next ex = next ex >>= λ step. elim step.status [
  | false ↦ ok []
  | true ↦ poll fuel next step.after >>= λ batches. ok (step.batch ∷ batches)
]

abbrev pub start {ℓ} : {T : Type ℓ} → List (List T) → Executor T
start child = record { child = child; child_tuples = []; child_offset = 0 }
