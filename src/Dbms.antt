-- ===== src/Dbms.antt =====
-- coffee.dbms: source/src/dbms and source/include/coffee/dbms.
pub mod Driver
pub mod Statement
pub mod Connection
pub mod Guard
pub mod Database
pub mod Datatype
mod Tests
