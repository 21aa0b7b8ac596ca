-- ===== src/Syscall.antt =====
-- kernel/exception/syscall.c: the system calls.
pub mod Numbers
pub mod Stubs
pub mod Requests
pub mod Machine
pub mod Serve
pub mod Dispatch
pub mod Refinement
mod Examples
