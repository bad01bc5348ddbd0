-- ===== src/Proto.antt =====
-- Communication/core/comm_protocol.h and comm_protocol.cpp: the TCP packages of the library.
-- A package is a packed header of 18 bytes, little endian, and its payload.
pub mod Bytes
pub mod Parse
use udpboardcast.Base.{
  ℕ, ◌+◌, ◌-◌, ◌%◌, ◌^◌, Bool, List, ◌++◌, ltb, ◌==◌, if◌then◌else◌, length, take, drop,
}
use Bytes.{le_bytes, le_value}

abbrev pub pkg_type_alive : ℕ
pkg_type_alive = 0

abbrev pub pkg_type_common : ℕ
pkg_type_common = 1

abbrev pub pkg_type_push : ℕ
pkg_type_push = 2

abbrev pub comm_current_version : ℕ
comm_current_version = 1

abbrev pub comm_magic_num : ℕ
comm_magic_num = 0x12345678

abbrev pub err_comm_proto_version : ℕ
err_comm_proto_version = 7

abbrev pub err_bad_comm_package : ℕ
err_bad_comm_package = 8

-- `comm_pkg_t`; `payload` is the flexible array `data`.
pub record CommPkg : Type 0 where
  pub version : ℕ
  pub magic : ℕ
  pub task_id : ℕ
  pub pkg_type : ℕ
  pub length : ℕ
  pub payload : List ℕ

-- `sizeof(comm_pkg_t)` under `#pragma pack(1)`.
abbrev pub header_size : ℕ
header_size = 18

-- `pkg->length = buflen` takes the low 32 bits.
unfoldable pub proto_build_package : List ℕ → ℕ → ℕ → CommPkg
proto_build_package buf pkg_type task_id = record {
  version = comm_current_version;
  magic = comm_magic_num;
  task_id = task_id;
  pkg_type = pkg_type;
  length = length buf % 2 ^ 32;
  payload = buf;
}

-- The bytes of a package as it lies in memory: what `uv_write` sends.
unfoldable pub encode : CommPkg → List ℕ
unfolding le_bytes
encode p =
    le_bytes 1 p.version
    ++ (le_bytes 4 p.magic
        ++ (le_bytes 8 p.task_id ++ (le_bytes 1 p.pkg_type ++ (le_bytes 4 p.length ++ p.payload))))

-- An unsigned field of `n` bytes at offset `o`.
unfoldable pub field : ℕ → ℕ → List ℕ → ℕ
unfolding le_value
field o n buf = le_value (take n (drop o buf))

-- `(comm_pkg_t*)*buf`. The payload is what of the claimed length lies in the buffer.
unfoldable pub view : List ℕ → CommPkg
unfolding field
view buf = record {
  version = field 0 1 buf;
  magic = field 1 4 buf;
  task_id = field 5 8 buf;
  pkg_type = field 13 1 buf;
  length = field 14 4 buf;
  payload = take (field 14 4 buf) (drop header_size buf);
}

-- The outcome of `proto_parse_package`: `NULL`, a package with the bytes behind it, or a package
-- after which the cursor lies so many bytes in front of where it was.
pub data Parsed : Type 0 where
  incomplete : Parsed
  parsed : CommPkg → List ℕ → Parsed
  moves_back : CommPkg → ℕ → Parsed

-- `int requireLen = pkg->length + sizeof(comm_pkg_t)`, as the bit pattern of the `int`.
unfoldable pub require_len : CommPkg → ℕ
require_len p = (p.length + header_size) % 2 ^ 32

-- What follows the test for a whole header. A negative `requireLen` is never greater than
-- `*remainSize`.
unfoldable pub take_package : CommPkg → List ℕ → Parsed
unfolding require_len
take_package pkg buf =
    if ltb (require_len pkg) (2 ^ 31)
    then if ltb (length buf) (require_len pkg)
      then incomplete
      else parsed pkg (drop (require_len pkg) buf)
    else moves_back pkg (2 ^ 32 - require_len pkg)

-- `*buf` and `*remainSize` are the list and its length.
unfoldable pub proto_parse_package : List ℕ → Parsed
proto_parse_package buf =
    if ltb (length buf) header_size then incomplete else take_package (view buf) buf

-- Zero for a package of this protocol.
unfoldable pub proto_check_pkg : CommPkg → ℕ
proto_check_pkg p =
    if p.magic == comm_magic_num
    then if p.version == comm_current_version then 0 else err_comm_proto_version
    else err_bad_comm_package
