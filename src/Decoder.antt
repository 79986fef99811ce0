-- ===== src/Decoder.antt =====
-- The typedstream decoder of the iMessage sensor, apps/imessage-sensor/src/decoder/typedstream.ts
-- and index.ts.
pub mod Stream
pub mod Ensures
pub mod Integers
pub mod Descriptor
pub mod Method
pub mod Tables
pub mod Objects
pub mod Archive
pub mod Body
