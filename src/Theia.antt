-- ===== src/Theia.antt =====
-- software/theia/theia_common.py: paths, the file system, the copies and the hashes that the
-- export and the import of a Theia share.
-- A path is the list of its components from the root. The file system is a list of nodes, the
-- newest first. The programs that the scripts start (rsync, sqlite3, diff, supervisorctl, slapos,
-- the signature scripts of the partitions, the GET of the proxy) are the record `Tools`.
mod Paths
mod World
pub mod PathLaws
pub mod Export
pub mod Import
pub mod Signatures
pub mod Safety
pub mod Outcomes
mod Tests
unfoldable pub use Paths.*
unfoldable pub use World.*
