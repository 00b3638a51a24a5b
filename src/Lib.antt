-- ===== src/Lib.antt =====
-- libklvanc reads and writes the ancillary data (VANC) of video lines. A line is a list of 10-bit
-- words; it holds packets of a start sequence, two identifiers, a count, a payload and a checksum.
--
-- The parts, and the files that model them:
--   Bitstream    src/klbitstream_readwriter.h: a byte buffer read and written bit by bit. Klbs is
--                struct klbs_context_s; each klbs_ function is a function on it.
--   Checksum     src/core-checksum.c.
--   Payload      klvanc_sdi_create_payload of src/core-packets.c: bytes to the words of a packet.
--   Packet       src/libklvanc/vanc-packets.h and `parse` of src/core-packets.c: words to a header.
--   Cache        src/core-cache.c: which packets were seen, on which lines.
--   Dispatch     parseByType of src/core-packets.c and the callbacks: the parser of a packet's type, and
--                what the application gets. Dispatch/Safe is about the parsers that stay in their memory.
--   Scan         klvanc_packet_parse of src/core-packets.c: the search of a line for packets, which
--                calls `parse`, updates the cache and delivers each packet through Dispatch; Scan/Delivered
--                takes an AFD packet from its conversion to the application.
--   Codec        what the converters of the packet types share: fields are written through Bitstream
--                into a buffer, and Payload makes a packet of the bytes.
--   Afd          src/core-packet-afd.c: Active Format Description and bar data.
--   Eia608       src/core-packet-eia_608.c: EIA-608 captions.
--   Eia708       src/core-packet-eia_708b.c: caption distribution packets (CDP) of up to four sections.
--                Eia708/Parser is parse_EIA_708B, Eia708/Builder the converters and setters; Arrival
--                says what of a packet is sent at all.
--   Sdp          src/core-packet-sdp.c: subtitling description packets.
--   Counter      src/core-packet-kl_u64le_counter.c: a 64-bit counter.
--   Timecode     src/core-packet-smpte_12_2.c: SMPTE 12-2 time code; Timecode/Create has its creation
--                from an ST 370 word and the choice of its line.
--   Scte104      src/core-packet-scte_104.c: splice messages. Scte104/Requests has the gen_ functions of
--                the requests, Scte104/Reading their parse_ functions, Scte104/Builder the converters,
--                Scte104/Fragments the parts that are held of a message, Scte104/Parser
--                parse_SCTE_104. Scte104/Wire and Arrival say which bytes a message is, and what arrives of it;
--                Series and Fragmented are about a message in several packets.
--   Lines        src/core-lines.c: packets placed on lines. Lines/Insert is about klvanc_line_insert,
--                Lines/Place and Lines/Generate about klvanc_generate_vanc_line, and Lines/Packed about
--                klvanc_generate_vanc_line_v210, which packs its words through Pixels.
--   Pixels       src/core-pixels.c: samples packed into v210 words and unpacked. Pixels/Planar is about luma
--                unpacked into planes, Pixels/Repack about luma and chroma in turn.
--   Smpte2108    src/core-packet-smpte_2108_1.c: HDR metadata. The loop over the frames has the number of
--                bytes, and one, as fuel, since a round takes two bytes at least.
--   Smpte2038    src/smpte2038.c: packets in the PES packets of a transport stream. Smpte2038/Parser has
--                the parser, Smpte2038/Packetizer the buffer of lines behind a PES header; Encoding has
--                the bits of a line, and RoundTrip sends and parses.
--   Word         single bits and the parity of a C word.
--   Prelude      tests, lists, results and arithmetic that the parts share.
--   Tests        the theorems at concrete inputs.
-- Each part has its definitions in the file of its name and its theorems in the files below it.
--
-- How C is modelled. Numbers are natural numbers, and what wraps around in C is written out with its
-- width. A pointer is the memory from its address on, as a list; reading or writing outside it, and a
-- failed `assert`, is the result `fault`. A negative result is `err`, success is `ok`. What an
-- allocation answers is an argument. Output parameters are part of the result. The callbacks of
-- the application are functions on a state of any type.
--
-- Fuel. The byte-stuffing loops of Bitstream run at most 8 times, as the register has 8 bits. The loop of
-- klvanc_packet_parse moves on by a word at least in each round, so `len + 2` rounds are enough.
-- The loop of `gcd` has its second number as fuel, which gets
-- smaller in each round. A round of the parser's loop for lines takes bytes, and a round that skips
-- stuffing takes a bit, so their fuel is the size of the buffer in bytes and in bits, and some more.
--
-- Not modelled: the table of the identifiers' names (src/core-did.c);
-- the context and its allocation; the rate limiter of src/libklvanc/klrestricted_code_path.h; console
-- output, texts and dumps, files, sockets and the command line tools with their ring buffer;
-- src/xorg-list.h, which is a copy of another project's; mutexes and time stamps of the cache.
pub mod Prelude
pub mod Bitstream
pub mod Word
pub mod Checksum
pub mod Payload
pub mod Packet
pub mod Cache
pub mod Dispatch
pub mod Scan
pub mod Codec
pub mod Afd
pub mod Eia608
pub mod Counter
pub mod Timecode
pub mod Sdp
pub mod Smpte2108
pub mod Smpte2038
pub mod Eia708
pub mod Lines
pub mod Pixels
pub mod Scte104
pub mod Tests
