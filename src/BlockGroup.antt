-- ===== src/BlockGroup.antt =====
-- file_system_manager/block_group/block_group.h and block_group.cpp: where the blocks of a group
-- lie (`Address`), the bit maps as blocks (`BitMapBlock`), and `BlockDescriptorManager` over a disk
-- (`Manager`, with its theorems in its children).
pub mod Address
pub mod BitMapBlock
pub mod Manager
pub mod Tests
pub mod DataBlockTests
pub mod FormatTests
