-- ===== src/Safs.antt =====
-- The file system of safs.c: its helpers, its handlers and its start, one module for each group,
-- and below each the modules of its theorems.
pub mod Inode
pub mod Find
pub mod Attributes
pub mod Contents
pub mod Names
pub mod Listing
pub mod Named
pub mod Numbers
pub mod Rules
pub mod Apart
pub mod Stored
pub mod Spec
pub mod Server
pub mod Start
mod Tests
