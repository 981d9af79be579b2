-- ===== src/Lib.antt =====
-- gopar reads, writes, verifies and repairs PAR1 and PAR2 parity files.
--
-- The parts, and the modules that model them:
--
-- * gf2 (gf2/poly64.go): polynomials over GF(2) as the bits of a uint64. `Gf2.Poly64` has Plus,
--   Minus, Times, ilog2 and Div. A Poly64 is a number below 2 ^ 64, and a left shift is a product
--   with a power of two modulo 2 ^ 64. The loops take fuel 64, one round for each bit.
-- * gf2p16 (gf2p16/t.go): elements of GF(2^16) with tables of logarithms and exponents, which init
--   fills. `Gf2p16.T` has the loop of init over the tables as functions of their indices, and the
--   operations, which take the tables as an argument. The panics of init are the result `none`.
-- * gf2p16 (gf2p16/matrix.go): matrices stored row by row. `Gf2p16.Matrix` has the whole file over
--   a field given by its laws (`Gf2p16.Algebra`), and `Gf2p16.Element` fills the field with the
--   elements and the tables of init. `Gf2p16.Slice` has the generic products of slices of elements
--   and of bytes (gf2p16/slice.go).
-- * rsec16 (rsec16/matrix.go and rsec16/coder.go): `Rsec16.Matrix` applies a matrix to shards, by
--   one loop or by goroutines, which run one after the other in an order that is an argument, and
--   `Rsec16.Coder` generates the parity shards. `Rsec16.Reconstruct` gives back the missing data
--   shards by the reduction of `Gf2p16.Matrix`. A shard is the elements that its pairs of bytes
--   are; byte offsets are even, and are halved where a shard is read or written. The panics of At
--   and of slices are the result `none`, and a shard has no capacity past its length.
-- * rsec16 (rsec16/cauchy.go, rsec16/vandermonde.go and rsec16/coder.go): `Rsec16.ParityMatrix` has
--   the two parity matrices and the constructors of the coder, with their errors and panics as
--   values.
-- * memfs (memfs/memfs.go): a file system in memory with a working directory, `Memfs`. Each method
--   returns the file system that it leaves.
-- * par1 (par1/header.go, par1/file_entry.go and par1/volume.go): `Par1.Header`, `Par1.FileEntry`
--   and `Par1.Volume` read and write the volumes of PAR1. A filename is its runes.
-- * par2, packets and files (par2/packet.go and others): `Par2.Packet` (par2/packet.go) has the
--   header and the body of a packet, `Par2.Strings` the strings (par2/string.go) and the creator
--   packet, `Par2.MainPacket`, `Par2.FileDescriptionPacket`, `Par2.IfscPacket` and
--   `Par2.RecoveryPacket` the file of that name, `Par2.Filename` the checks of a name with
--   path.IsAbs and path.Clean, `Par2.File` the loop of readFile and `Par2.File.Write` writeFile
--   (par2/file.go), which call all of them. Bytes are numbers, a buffer is what is left of it, an
--   error is a value of `Par2.Error`, a run-time panic too, and MD5 is a parameter, of which the
--   round trips use that its digests have 16 bytes. The loop of readFile takes fuel, one more than
--   the file has bytes. A map is an association list, which is iterated over in its order.
-- * par2, checksums (par2/crc32.go and par2/data_file.go): `Par2.Crc32` has the CRC32, bit by bit,
--   and the window that slides over a file, and `Par2.DataFile` cuts a file into slices. A slice
--   that is to have more than 2 ^ 48 bytes, the address space of amd64, is a panic of make.
-- * par2, decoder (par2/decoder.go): `Par2.FileIo` is the interface fileIO, with the state of the
--   disk as a parameter; a write returns the disk that it leaves, also where it fails.
--   `Par2.Decoder` has the state of the decoder, newDecoder and ShardCounts,
--   `Par2.Decoder.Locations` the map from checksums to places, `Par2.Decoder.Load` LoadFileData,
--   `Par2.Decoder.Parity` LoadParityData, and `Par2.Decoder.Repair` Repair, which calls the coder
--   of `Rsec16`. The search in a data file takes fuel, one more than the file has bytes.
-- * par2, encoder (par2/encoder.go): `Par2.Encoder` has newEncoder, LoadFileData, ComputeParityData
--   and Write. Each turn of the loop over the volumes takes a parity shard at least, so one more
--   than their count is enough fuel. `Par2.Paths` has what the package asks of path and
--   path/filepath.
-- * par2, commands (par2/create.go, par2/verify.go and par2/repair.go): `Par2.Commands` calls the
--   encoder and the decoder in the order of create, verify and repair.
-- * cmd/par (cmd/par/main.go and par2cmdline/exit_codes.go): `CommandLine` has the names of the
--   commands, and the exit codes for PAR2 files; a panic ends the process with status 2.
--
-- Not modelled: the assembly for amd64 and the casts of slices; the calls of delegates, which only
-- tell the caller what is found, with the loops that find it; the files of the operating system, in
-- whose place any filling of `Par2.FileIo` stands; the parsing of flags and what is printed. The
-- encoder and the decoder of PAR1, which call a Reed-Solomon library of another project, are not
-- modelled, and neither are the branches of the command line that call them.
--
-- `Common` holds the lists, maps and tests over the native numbers, bytes and results
-- (`Common.Bytes`), the laws of the exclusive or (`Common.Bits`) and the pigeonhole principle.
-- Theorems at concrete inputs stand in the modules named Tests.
pub mod Common
pub mod Gf2
pub mod Gf2p16
pub mod Rsec16
pub mod Memfs
pub mod Par1
pub mod Par2
pub mod CommandLine
