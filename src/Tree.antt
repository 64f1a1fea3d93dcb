-- ===== src/Tree.antt =====
-- src/virtualfiletreeitem.h and .cpp, the virtual file tree.
-- An item and its children are one value. A handle (`shared_ptr`) into a tree is the list of the
-- keys that lead to the item; `m_parent` is the item that those keys lead through. A lock is held
-- for the whole of each operation, so operations are functions.
pub mod Item
pub mod Entries
pub mod View
pub mod Order
pub mod Find
pub mod Add
pub mod Erase
pub mod Merge
pub mod Modify
pub mod Print
pub mod Listed
pub mod Names
pub mod Sound
pub mod Store
pub mod Fuel
pub mod Spelling
pub mod Path
