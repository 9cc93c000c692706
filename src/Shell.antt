-- ===== src/Shell.antt =====
-- shell_manager/shell_manager.h and shell_manager.cpp: directories as files of entries, paths, and
-- the commands. A `string` is its bytes, and messages to the terminal are left out. Locals that are
-- not initialised hold what the stack holds.
pub mod Entry
pub mod Names
pub mod Directory
pub mod Commands
pub mod Tests
pub mod DirectoryTests
pub mod AppendTests
