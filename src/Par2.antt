-- ===== src/Par2.antt =====
-- par2: the packets and files of the PAR2 format.
pub mod Error
pub mod Packet
pub mod Strings
pub mod Filename
pub mod MainPacket
pub mod IfscPacket
pub mod RecoveryPacket
pub mod FileDescriptionPacket
pub mod File
pub mod Crc32
pub mod DataFile
pub mod Paths
pub mod FileIo
pub mod Decoder
pub mod Encoder
pub mod Commands
pub mod Tests
