-- ===== src/Tree.antt =====
-- The B+ tree of btree.go and node.go.
pub mod Page
pub mod Order
pub mod Search
pub mod Pairs
pub mod Ordered
pub mod Tidy
pub mod Halves
pub mod Grown
pub mod RootPut
pub mod Cells
pub mod Routing
pub mod Linking
pub mod Below
pub mod Halved
pub mod Through
pub mod SplitPut
pub mod Split
pub mod Store
pub mod Lookup
pub mod Placed
pub mod PutGet
pub mod Layout
pub mod Laid
pub mod Codec
