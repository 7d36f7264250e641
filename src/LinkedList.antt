-- ===== src/LinkedList.antt =====
-- LinkedList.c and include/LinkedList.h: singly linked lists of nodes that point to data.
pub mod Memory
pub mod Cells
pub mod Add
pub mod Remove
pub mod Steps
pub mod View
pub mod AddLaws
pub mod CopyLaws
pub mod RemoveLaws
pub mod ViewLaws
pub mod Unlink
pub mod UnlinkLaws
pub mod FreeLaws
pub mod Dangling
pub mod Show
pub mod ShowLaws
pub mod Erase
pub mod Refine
pub mod RefineRemove
pub mod Sequences
pub mod SequenceLaws
pub mod Walk
pub mod InsertLaws
pub mod InsertNth
pub mod RemoveNth
