-- ===== src/Pin/Queue.antt =====
-- The interface of vLLM's FreeKVCacheBlockQueue, a linked list of blocks, oldest first. Only what
-- its documentation says of the operations is assumed.
use qwen3_8_flash_dgx_auto_r.Common.{
  ℕ, ◌≤◌, ◌≡◌, refl, true, List, [], ◌∷◌, ◌++◌, length, take, drop, elem, erase, ℕ_discrete,
}

pub record FreeQueue : Type 1 where
  pub Queue : Type 0
  pub to_list : Queue → List ℕ
  -- `FreeKVCacheBlockQueue([])`
  pub create : Queue
  pub append : Queue → ℕ → Queue
  pub append_n : Queue → List ℕ → Queue
  pub prepend_n : Queue → List ℕ → Queue
  pub remove : Queue → ℕ → Queue
  pub popleft_n : Queue → ℕ → List ℕ × Queue
  pub num_free_blocks : Queue → ℕ
  pub to_list-create : to_list create ≡ []
  pub to_list-append : (q : Queue) (b : ℕ) → to_list (append q b) ≡ to_list q ++ b ∷ []
  pub to_list-append_n : (q : Queue) (bs : List ℕ) → to_list (append_n q bs) ≡ to_list q ++ bs
  pub to_list-prepend_n : (q : Queue) (bs : List ℕ) → to_list (prepend_n q bs) ≡ bs ++ to_list q
  -- A block that is not linked makes `remove` raise, so nothing is said of it.
  pub to_list-remove :
      (q : Queue) (b : ℕ)
      → elem ℕ_discrete b (to_list q) ≡ true
      → to_list (remove q b) ≡ erase ℕ_discrete b (to_list q)
  pub popped : (q : Queue) (n : ℕ) → n ≤ length (to_list q) → (popleft_n q n).0 ≡ take n (to_list q)
  pub to_list-popleft_n :
      (q : Queue) (n : ℕ) → n ≤ length (to_list q) → to_list (popleft_n q n).1 ≡ drop n (to_list q)
  pub num_free_blocks_lem : (q : Queue) → num_free_blocks q ≡ length (to_list q)

-- Lists are such queues.
abbrev pub list_queue : FreeQueue
list_queue = record {
  Queue = List ℕ;
  to_list = λ q. q;
  create = [];
  append = λ q b. q ++ b ∷ [];
  append_n = λ q bs. q ++ bs;
  prepend_n = λ q bs. bs ++ q;
  remove = λ q b. erase ℕ_discrete b q;
  popleft_n = λ q n. (take n q, drop n q);
  num_free_blocks = length;
  to_list-create = refl;
  to_list-append = λ q b. refl;
  to_list-append_n = λ q bs. refl;
  to_list-prepend_n = λ q bs. refl;
  to_list-remove = λ q b h. refl;
  popped = λ q n h. refl;
  to_list-popleft_n = λ q n h. refl;
  num_free_blocks_lem = λ q. refl;
}
