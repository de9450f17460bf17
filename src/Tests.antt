-- ===== src/Tests.antt =====
-- The theorems at concrete inputs, a module for each component.
pub mod BioTests
pub mod ConsoleTests
pub mod FileTests
pub mod FsTests
pub mod KallocTests
pub mod LockTests
pub mod LogTests
pub mod PipeTests
pub mod ProcTests
pub mod SchedTests
pub mod SemaTests
pub mod StrTests
pub mod UserTests
