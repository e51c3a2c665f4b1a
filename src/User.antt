-- ===== src/User.antt =====
-- user/libthread, the thread library of the user programs.
pub mod Mutex
pub mod RwLock
pub mod Threads
pub mod Autostack
