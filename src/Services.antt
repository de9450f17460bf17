-- ===== src/Services.antt =====
-- What process management calls of the memory allocator (Lab/code/kalloc.c), of the page tables
-- (Lab/code/vm.c) and of the file system (Lab/code/file.c, Lab/code/fs.c, Lab/code/log.c): their
-- state and their operations, as an interface. Addresses are numbers and 0 is the null pointer.
use xmu_learning_os.Base.{ℕ}

pub record Services : Type 1 where
  pub St : Type 0
  pub kalloc : St → ℕ × St
  pub kfree : ℕ → St → St
  pub copyuvm : ℕ → ℕ → St → ℕ × St
  pub freevm : ℕ → St → St
  pub allocuvm : ℕ → ℕ → ℕ → St → ℕ × St
  pub deallocuvm : ℕ → ℕ → ℕ → St → ℕ × St
  pub filedup : ℕ → St → St
  pub fileclose : ℕ → St → St
  pub idup : ℕ → St → St
  pub iput : ℕ → St → St
  pub begin_op : St → St
  pub end_op : St → St
