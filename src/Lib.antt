-- ===== src/Lib.antt =====
-- Verification of the verified-boot library of Android_boot_image_editor, aosp/libavb, which the
-- build compiles and which avbImpl drives: byte order, checked sums and strings, the vbmeta image
-- with its header, digest and signature, the footer, the descriptors and the iteration over them,
-- the kernel command line, and the verification of a slot, which uses all of these.
--
-- The parts. A partition may end with a footer (Footer) that says where its vbmeta image is. A
-- vbmeta image (Vbmeta) has a header of 256 bytes, an authentication block with a hash and a
-- signature, and an auxiliary block with the public key and the descriptors. The verification
-- checks the header, compares the hash and asks RSA about the signature. The descriptors
-- (Descriptor) of a verified image are visited one behind the other, and each kind has a function
-- that checks it. The slot verification (Slot) loads the vbmeta image and the images chained to it,
-- checks keys and rollback indexes, loads and hashes the partitions, and makes the kernel's command
-- line (Cmdline). It asks the boot loader through AvbOps (Ops). All parts use the helpers of Util.
--
-- The files, with the C code under aosp/libavb/src/avb that they model:
--   Util/Endian       c/avb_util.c: avb_be32toh, avb_be64toh, avb_htobe32, avb_htobe64; and how a
--                     packed field is read from a buffer; Endian/BigEndian has the number that
--                     the bytes of a field are
--   Util/Checked      avb_safe_add_to, avb_safe_add
--   Util/Compare      avb_safe_memcmp, and avb_memcmp as a test of equality
--   Util/Utf8         avb_validate_utf8
--   Util/Strings      avb_strlen, avb_strdup, avb_strstr, avb_replace
--   Util/Text         avb_str_concat, avb_strv_find_str, avb_strdupv, avb_basename, avb_uppercase,
--                     avb_bin2hex
--   Crypto            c/avb_crypto.c: the paddings and avb_get_algorithm_data; the parameter
--                     Primitives stands for the digests and for avb_rsa_verify
--   Vbmeta/Header     headers/avb_vbmeta_image.h and avb_vbmeta_image_header_to_host_byte_order
--   Vbmeta/Verify     c/avb_vbmeta_image.c: avb_vbmeta_image_verify, one function for each stretch
--                     between two early returns
--   Footer            c/avb_footer.c
--   Descriptor        c/avb_descriptor.c, c/avb_property_descriptor.c, c/avb_hash_descriptor.c,
--                     c/avb_hashtree_descriptor.c, c/avb_kernel_cmdline_descriptor.c and
--                     c/avb_chain_partition_descriptor.c: the structs and their checks;
--                     Descriptor/Layout has the places of the fields
--   Descriptor/Foreach  avb_descriptor_foreach and avb_descriptor_get_all
--   Descriptor/Property  avb_property_lookup and avb_property_lookup_uint64
--   Ops               headers/avb_ops.h and the result codes of headers/avb_slot_verify.h; the
--                     parameter AvbOps stands for the operations of the boot loader
--   Cmdline           c/avb_cmdline.c: cmdline_append_* and uint64_to_base10
--   Cmdline/Options   avb_append_options
--   Cmdline/Subst     avb_sub_cmdline, avb_add_root_digest_substitution
--   Slot/Exec         c/avb_slot_verify.c: the state of a verification, and its computations
--   Slot/Load         load_full_partition, load_requested_partitions
--   Slot/Digest       read_persistent_digest, initialize_persistent_digest
--   Slot/Hash         load_and_verify_hash_partition
--   Slot/Entries      the loop over the descriptors in load_and_verify_vbmeta
--   Slot/Checks       the checks of load_and_verify_vbmeta, up to the record of the image
--   Slot/Image        the rest of load_and_verify_vbmeta, one function for each stretch
--   Slot/Verity       avb_manage_hashtree_error_mode, avb_slot_verify_data_calculate_vbmeta_digest
--   Slot/Verify       avb_slot_verify, has_system_partition
-- The other files of Slot have proofs: Rules, Ensures, Does, Plain and Recorded are rules for
-- computations, Trust says what a trusted image is, and Counts, Keys, Accepts, Walk, Chain, Recursion
-- and Finish lead to Trusted. Hash/Loads and Hash/Compared lead to Hash/Verified.
-- Common has the names, list functions and lemmas that all share, Memory the reads of a buffer, Heap
-- the allocation, and Tests the runs on small inputs.
--
-- How the code is read. A buffer is the list of its bytes; a read that leaves it is the outcome
-- `fault`, so that a theorem with `ok` says that the code stays inside. A C string is the list of its
-- bytes before the NUL. Numbers are the native natural numbers; the wrap-around of uint32_t, uint64_t
-- and addresses is written out as a remainder, and a size_t has 64 bits. The host is little-endian.
-- The answers of malloc are a list, so that a theorem can name the allocation that fails; freeing a
-- block has no effect on the model. Functions that return through pointers return the values.
-- Messages (avb_error, avb_debug) are left out. `goto out` with an error is an outcome of a
-- computation, with the state that it leaves; a failed assertion, avb_fatal and a use of memory
-- outside a buffer or of a variable without a value are outcomes of their own. Persistent values
-- are part of the state; the other operations of AvbOps are functions of their arguments. A
-- failed assertion ends the program, those on alignment included, which the build turns on with
-- AVB_ENABLE_DEBUG; the alignment is 8.
--
-- Bounds and fuel. The loop of avb_descriptor_foreach has fuel for `image_size + 1` rounds: each
-- moves on by 16 bytes at least and stays in the region. The loop of avb_replace has fuel for one
-- round for each byte of the text and one more: a search string that is found is not empty. The
-- loop of uint64_to_base10 has its own bound of 31 digits, of which 20 are used. The fuel of
-- load_and_verify_vbmeta is the depth of its recursion: the vbmeta partition leads to boot at most,
-- and either to chained images, which lead no further, so that 3 is enough.
--
-- Not modelled. SHA-256, SHA-512 (c/avb_sha256.c, c/avb_sha512.c), RSA (c/avb_rsa.c) and CRC-32
-- (c/avb_crc32.c) are copies of other projects' code. avb_slot_verify_data_free and
-- avb_free_cmdline_subst_list free and are left out. c/avb_sysdeps_posix.c calls the C library, and
-- c/avb_version.c and the functions that turn results into texts are tables. avbImpl, mkbootfs,
-- libsparse, and the Kotlin, Java and Python code of the repository are outside.
pub mod Common
pub mod Memory
pub mod Heap
pub mod Util
pub mod Footer
pub mod Crypto
pub mod Vbmeta
pub mod Descriptor
pub mod Ops
pub mod Cmdline
pub mod Slot
mod Tests
