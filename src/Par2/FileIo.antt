-- ===== src/Par2/FileIo.antt =====
-- The interface fileIO of par2/decoder.go: what the encoder and the decoder ask of a file system. The
-- calls of the operating system are not under it here, so its state is a parameter; memfs fills it.
use gopar.Common.{Option, List}
use gopar.Common.Bytes.{Bytes, Result}
use gopar.Par2.Error.{Error}

pub record FileIo : Type 1 where
  pub Disk : Type 0
  pub read_file : Disk → Bytes → Result Error Bytes
  pub find_with_prefix_and_suffix : Disk → Bytes → Bytes → Result Error (List Bytes)
  -- A write that fails may leave a part of the data, so the disk comes back with the error.
  pub write_file : Disk → Bytes → Bytes → Option Error × Disk
