-- ===== src/Protobuf.antt =====
-- src/grapec/protobuf.py: struct instances in the protobuf wire format.
pub mod Moments
pub mod Scalars
pub mod Encode
pub mod Decode
pub mod RoundTrip
pub mod Unknown
pub mod Total
pub mod Ends
mod Examples
