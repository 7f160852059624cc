-- ===== src/TableHeap/Pool.antt =====
-- What the table heap asks of bustub/src/buffer/buffer_pool_manager.cpp, whose operations the
-- repository leaves unimplemented: pages by their identifier, and `NewPage`, which takes the next
-- identifier from a counter, as its comment says.
use learning_journey.Base.{ℕ, ◌+◌, ◌≡◌}
use learning_journey.TablePage.{TablePage}
use learning_journey.TablePage.Memory.{update}

pub record IsLawful {ℓ} {B : Type ℓ} (page : B → ℕ → TablePage) (set_page : B → ℕ → TablePage → B)
    (counter : B → ℕ) (new_page : B → ℕ × B) : Type ℓ where
  pub page-set_page :
      (b : B) (i : ℕ) (p : TablePage) (j : ℕ) → page (set_page b i p) j ≡ update (page b) i p j
  pub counter-set_page : (b : B) (i : ℕ) (p : TablePage) → counter (set_page b i p) ≡ counter b
  pub page-new_page : (b : B) (j : ℕ) → page (new_page b).1 j ≡ page b j
  pub new_page_id : (b : B) → (new_page b).0 ≡ counter b
  pub counter-new_page : (b : B) → counter (new_page b).1 ≡ counter b + 1

pub record BufferPool {ℓ} (B : Type ℓ) : Type ℓ where
  pub page : B → ℕ → TablePage
  pub set_page : B → ℕ → TablePage → B
  pub counter : B → ℕ
  pub new_page : B → ℕ × B
  pub lawful : IsLawful page set_page counter new_page
  pub open lawful use *
