-- ===== src/Lib.antt =====
-- pancake-store: a storage node in C++ on seastar. This development models what the engine
-- `pancake` keeps on a raw device and how it hands out extents, and the datanode around it: its
-- configuration, its services, and the remote procedure calls that reach them.
--
-- The parts, and how they interact. A device is divided into regions of 4096-byte blocks
-- (src/datanode/storage/engine/pancake/pancake_layout.cc). What stands in a block is one of five
-- formats, each with a magic number and a checksum (pancake_block.cc, src/comm/crc.cc). Blocks are
-- read and written through a thin layer over seastar's files (pancake_io.cc). The extent manager
-- (pancake_extent_mgr.cc) keeps a bitmap of the extent blocks in memory and on the device, and on
-- `AddExtent` writes an extent header and a bitmap block. The engine (pancake.cc) checks a device
-- with the help of the system's files (src/datanode/comm/device.cc) before it makes a file system.
-- `main` (src/datanode/main.cc) reads the configuration (src/datanode/comm/config.cc) and starts the
-- manager service (src/datanode/service/manager_service.cc), whose handlers a server (src/rpc)
-- calls; the callers are in src/pkg/rpc_caller, and tools/client/main.cc is a program that makes
-- such a call.
--
-- The files:
--   Base            Boolean tests, lists over the native numbers, the laws of exclusive or.
--   Comm            Crc for `CRC32` of src/comm/crc.cc; ErrorCode for proto/error_code.proto; Text
--                   for what the code reads of text: `c_str`, `getline`, and `>>` of streams.
--   Block           pancake_block.{h,cc}. Step has the reading and writing that the formats
--                   share, Footer the common footer; Super, Bitmap, Data, Journal and
--                   ExtentHeader have `serialize` and `deserialize` of one format each. Accepted
--                   is about the reading of any bytes. Host is the machine and the build: bytes of
--                   integers in memory, seastar's `hton` and `ntoh`, and whether NDEBUG is defined.
--   Layout          `BuildLayout` of pancake_layout.cc.
--   Io              pancake_io.cc over a device as a parameter, File.
--   ExtentMgr       pancake_extent_mgr.{h,cc}: Manager has the state and the pure operations, the
--                   module itself `AddExtent` and `DelExtent`; the children have the theorems,
--                   Mark, Writes, Mirrored, Added and Calls those about the bitmap blocks on the
--                   device, FromLayout those about the regions that Layout has laid out.
--   Rpc             Serializer for src/rpc/serializer.h; Method and Message for what the protocol
--                   files define; Server for src/rpc/datanode.{h,cc}; Caller for src/pkg/rpc_caller.
--   Datanode        Config for src/datanode/comm/config.{h,cc} and main.cc, Device for
--                   src/datanode/comm/device.cc, Manager for manager_service.{h,cc}.
--   Pancake         `MakeFS` of pancake.cc; Engine has the interface of engine.h and the other
--                   operations.
--   Tool            The client program, tools/client/main.cc.
--   Examples        Concrete machines, devices, connections and files to which the theorems are
--                   applied.
--
-- How the code is read. A block is a record with the C++ fields; `Serialize` returns the block as
-- it leaves it together with the bytes, or `none` for the abort of its assertion, which a build
-- that defines NDEBUG, the default one, does not have. `Deserialize` takes the block it reads into
-- and returns the error code and what it left of the block. An operation of the manager takes the
-- manager and the device and returns an Answer: the code, the manager, the device and the caller's
-- header afterwards, or `none` for an abort, an access past the bitmap, or an index that an `int`
-- does not hold; for the engine `none` is undefined behaviour: the overflow of an `int` in
-- `MakeFS`, and the missing value of the operations with an empty body. The mutex makes each call
-- one step. Numbers are natural numbers, cut to their width where the C++ type cuts them. Loops are
-- structural: the search of `AddExtent` runs `extent_block_count_` rounds, as the source does. A
-- string is its bytes. A handler takes the service, the request and the response and returns the
-- code, the response and the service; a caller takes the state of the other end and returns it with
-- the answer. In Rpc and Datanode `none` is an exception. Futures are their results, and log lines
-- are left out.
--
-- Parameters. Host has the build's NDEBUG, and states that the memory of `hton(v)` is `v` in
-- network order, that `ntoh` undoes it, and that an integer is read back from its own memory. File
-- states that a read that succeeds returns the bytes of the device, and that a write that reports
-- all its bytes has stored them and nothing else. Output and Input are the two ends of a
-- connection: bytes are appended, and the next bytes are read. Codec and Messages are protobuf's
-- classes, of which only one thing is stated: an error code that is set is there. Protocol is
-- seastar's table of handlers: a number that has none gets the one registered, and the others keep
-- theirs. Client is a call of the other end. Yaml is yaml-cpp, which throws where a node that is no
-- scalar is converted to a number. System is the files and links of the system as they are during a
-- call.
--
-- The client program is taken to find the locals that its continuations refer to, and `AddExtent`
-- the parameter and the local that its lambda refers to. `GetDeviceUUID` reads the path that it is
-- declaring, which is undefined behaviour: the model covers the executions in which the call that
-- is given it returns a path or throws. What the client program prints and logs is its result.
--
-- Not modelled: the members that an exception leaves assigned in a configuration or a server;
-- handlers that throw; the data service, the other engines, caches and statistics, which are
-- declarations without a body to model; generated protocol code.
pub mod Base
pub mod Comm
pub mod Block
pub mod Layout
pub mod Io
pub mod ExtentMgr
pub mod Rpc
pub mod Tool
pub mod Datanode
pub mod Pancake
pub mod Examples
