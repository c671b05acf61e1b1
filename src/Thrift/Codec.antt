-- ===== src/Thrift/Codec.antt =====
-- The struct codec of thrift.py as a whole: what is written is read back.
pub mod Plain
pub mod Values
pub mod Names
pub mod Structs
pub mod Ends
mod Examples
