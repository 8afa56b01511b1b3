-- ===== src/Lib.antt =====
-- rustyhdf5: a reader and writer of HDF5 files in Rust. This library models the format crate,
-- crates/rustyhdf5-format/src, from the bytes of a file up to its object headers, groups, heaps,
-- chunk indexes and chunk filters, and proves what its parsers and writers promise.
--
-- A file is a list of bytes (IsSlice: each below 256, fewer than 2^63 of them, which Rust
-- guarantees of every slice). A call that can fail returns an Outcome: ok, err with a
-- FormatError, panic (an index out of range, an overflow of checked arithmetic) or stuck (a
-- loop of the model out of fuel; no Rust value). usize and u64 have 64 bits. Making room for
-- more than isize::MAX bytes at once panics (reserve in Outcome); that an allocation fails for
-- lack of memory is not modelled. A statement of the
-- form Ensures P m says that m returns ok with P or some err, so neither panic nor stuck.
--
-- Parts:
--   Prelude, Outcome, Bytes: shared names, results and their postconditions, slices, indexing,
--     little-endian numbers, and cursors that follow a reader through written data.
--   Utils (utils.rs): ensure_len, read_offset, pad8, checksum_mismatch and the other reads that
--     every parser calls.
--   Checksum (checksum.rs): jenkins_lookup3. The 12-byte blocks are a loop on Acc.
--   Signature (signature.rs): the search for the magic bytes; fuel is the file's length, and
--     each round moves the offset by 512 at least.
--   Superblock, Dataspace, MessageType (superblock.rs, dataspace.rs, message_type.rs): parse and
--     serialize of the messages.
--   ObjectHeader (object_header.rs): parse, parse_v1 with its nested continuation blocks (the
--     source bounds the nesting by 32), parse_v2 with its list of continuation blocks (the
--     source bounds their number by 256); the loop over a block has one round of fuel for each of
--     its bytes, and a round takes 4 bytes at least.
--   ObjectHeaderWriter (object_header_writer.rs): the writer of version 2 headers and its batch.
--   InfoMessages (link_info.rs, group_info.rs, attribute_info.rs), LinkMessage (link_message.rs):
--     the messages of a version 2 group. LocalHeap/Utf8 writes out what the standard library's
--     from_utf8 and from_utf8_lossy do.
--   DataLayout (data_layout.rs), FilterPipeline (filter_pipeline.rs): the messages that say how a
--     dataset is stored.
--   Filters (filters.rs): shuffle_compress, shuffle_decompress, fletcher32_compute,
--     fletcher32_verify, fletcher32_append, and the pipelines compress_chunk and decompress_chunk.
--     The while loops have fuel for the data's length. The zlib coder of the flate2 crate is the
--     parameter Zlib, with its documented promise IsLossless.
--   ChunkWrite (chunked_write.rs): ChunkOptions with build_pipeline, and the chunked layout
--     messages serialize_v4_single_chunk, serialize_v4_fixed_array and
--     serialize_v4_extensible_array.
--   ChunkGrid (fixed_array.rs, chunked_read.rs): index_to_chunk_offsets and the indexes that are
--     not stored, collect_single_chunk_info and generate_implicit_chunks.
--   ChunkTree (chunked_read.rs): collect_chunk_info. The depth of the walk is fuel that the source
--     does not have: it is enough in a file whose inner nodes only point further back.
--   FixedArray (fixed_array.rs), FixedArray/Build (build_fixed_array_at of chunked_write.rs): the
--     fixed array index. The logarithm has fuel for the 64 bits of its number.
--   ChunkCache (chunk_cache.rs): the cache of decompressed chunks and the chunk index. The state
--     is CacheInner behind a lock; calls are modelled one after the other (prefetch_hint gives
--     the lock up once between its test and its loop, which lets other threads in that are not
--     modelled). Eviction has one round of fuel more than there are slots, and each round removes
--     one. ChunkCache/Coherent has the step relation of the calls.
--   LanePartition (lane_partition.rs): which lane decompresses which chunk.
--   MetadataIndex (metadata_index.rs): the datasets of several creators and their merge. The types
--     of datatypes and of attribute values are parameters.
--   LocalHeap, SymbolTable, BtreeV1, GlobalHeap (local_heap.rs, symbol_table.rs, btree_v1.rs,
--     global_heap.rs): the parts of a version 1 group, and variable-length data. The depth of
--     the B-tree walk is fuel that the source does not have: it ends on trees only.
--
-- Interaction: a superblock names the root group's header; ObjectHeader.parse splits a header
-- into messages; a symbol table message names a BtreeV1 root, whose leaves are SymbolTable
-- nodes, whose names lie in a LocalHeap. Dataspace, DataLayout and FilterPipeline are messages
-- of a dataset; the layout names the index of its chunks (ChunkTree, FixedArray, ChunkGrid), an
-- index gives the ChunkInfo that ChunkCache and LanePartition work on, and the pipeline says
-- which Filters undo what ChunkWrite's options did. The checksum and deflate features are on.
--
-- Not modelled: message texts of errors, deflate itself (a third-party crate), the CRC-32 table,
-- the extensible array, the version 2 B-tree, the fractal heap, datatypes, the resolution of
-- paths, the assembly of chunks into a dataset, the file writer, and the crates around the
-- format crate (I/O, GPU, SIMD, Python, NetCDF-4, nearest neighbours).
pub mod Prelude
pub mod Outcome
pub mod Bytes
pub mod Checksum
pub mod Utils
pub mod Signature
pub mod Superblock
pub mod DataLayout
pub mod Dataspace
pub mod MessageType
pub mod MetadataIndex
pub mod ObjectHeader
pub mod ObjectHeaderWriter
pub mod FilterPipeline
pub mod Filters
pub mod FixedArray
pub mod LinkMessage
pub mod LocalHeap
pub mod SymbolTable
pub mod BtreeV1
pub mod GlobalHeap
pub mod ChunkCache
pub mod ChunkGrid
pub mod ChunkTree
pub mod ChunkWrite
pub mod InfoMessages
pub mod LanePartition
