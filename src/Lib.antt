-- ===== src/Lib.antt =====
-- Models of the Rust crates of this repository: of libs/hbb_common the framing of the stream and
-- its encryption, the way through a proxy, the mangled addresses, the stored passwords, the
-- settings and their files, and the file transfer; the file clipboard of libs/clipboard; the choice
-- of the video codec and the recorder of libs/scrap; and the package of libs/portable.
--
-- The parts, and where they are modelled:
--   * BytesCodec: libs/hbb_common/src/bytes_codec.rs. A packet is sent as a head of one to four
--     bytes, little-endian, whose two low bits give its length, and the bytes of the packet. A
--     buffer is the list of its bytes; `decode` gives the result, the codec after it and what it
--     leaves in the buffer. A run of a receiver is a sequence of arriving bytes and calls of
--     `decode`.
--   * Tcp: libs/hbb_common/src/tcp.rs, the encryption with its counters (`Encrypt`) and the
--     messages of `FramedStream`, which are frames of BytesCodec. `secretbox` and `box_` are the
--     parameter `Box`.
--   * AddrMangle: `AddrMangle` and `try_into_v4` of libs/hbb_common/src/lib.rs, with
--     `get_any_listen_addr` of libs/hbb_common/src/config.rs. The clock is an argument of `encode`.
--   * PasswordSecurity: libs/hbb_common/src/password_security.rs. The options, `secretbox` and
--     `base64` are parameters.
--   * Config: libs/hbb_common/src/config.rs. Options has the options with their flags and defaults,
--     Settings the guarded settings and the choice of the server by latency, Devices the trusted
--     devices. Main (`Config`), Various (`Config2`) and Peer (`PeerConfig`) have what is read from
--     the files and written to them, with the secrets sealed by PasswordSecurity; the text of the
--     files is confy's, and what the deserializers of `PeerConfig` put in place of a style is in
--     Peer. PeerFiles has the names of the files of peers and the list of peers.
--     Identity has the id, the password, the salt and the keys, Servers the rendezvous servers and
--     the proxy. A setter of Settings answers whether the file is written.
--   * Proxy: libs/hbb_common/src/proxy.rs. The parent has the addresses and the request for a
--     tunnel, Response the reader of the response, Tunnel the two together (`http_connect`) before
--     the frames of BytesCodec. `url`, the resolver, base64, `read_line` of tokio and httparse are
--     parameters.
--   * Transfer: `TransferJob` of libs/hbb_common/src/fs.rs. Job has the state and what changes only
--     it, Write the receiving side, Read the sending side and the loop over the jobs, Listing the
--     lists of files, Blocks, Sides and Relay follow a file from one side to the other. The file
--     system, the stream and the compression are the parameter `Outside`, whose calls take a world
--     and give it back; the lists take what the disk shows as a tree.
--   * Cliprdr: the messages and errors of libs/clipboard/src/lib.rs, which Fuse and LocalFile use.
--   * Channels: the table of channels of libs/clipboard/src/lib.rs, by which messages are
--     delivered.
--   * Fuse: libs/clipboard/src/platform/fuse.rs, which shows the files of the peer's clipboard as a
--     file system. Path has the rules of `std::path`, Handles the handles of a node
--     (`FileHandles`), Node the nodes and attributes, Tree the function `build_tree`, Descriptor
--     the parser of the peer's list, Read the reading of a block from the peer, and Server the
--     handlers of `FuseServer`.
--   * LocalFile: libs/clipboard/src/platform/unix/local_file.rs and `build_file_list_pdu` of
--     libs/clipboard/src/platform/unix/mod.rs, which write the list that Descriptor parses. Handle
--     has the open file that a range is read from, Walk the walk through the directories
--     (`construct_file_list`), where what the disk shows is a tree of entries.
--   * Serve: the answers to requests of contents in libs/clipboard/src/platform/unix/mod.rs.
--   * Context: `ClipboardContext` of the same file, with every message of `serve`. It joins the
--     parts: LocalFile lists the files of the clipboard, Fuse shows those of the peer, Serve
--     answers requests. A handler gives the state, what is sent and pasted, and the result.
--   * VideoCodec: libs/scrap/src/common/codec.rs. Encoder has the negotiation of the format between
--     the connected peers, Decoder what a peer is told and the making of a decoder, Formats the
--     messages and what the machine can (`Machine`).
--   * Record: libs/scrap/src/common/record.rs, the recorder of a session, which begins a file where
--     the format, the size or the order of time changes, and what its muxers are given.
--   * Hosts: the ports in names of servers of libs/hbb_common/src/socket_client.rs, and the
--     versions of libs/hbb_common/src/lib.rs.
--   * Portable: libs/portable/src/bin_reader.rs, which reads what libs/portable/generate.py writes.
--
-- Numbers of w bits are natural numbers, and their wrap-around is written out as in a release
-- build; an i32 is its 32-bit pattern. Texts and paths are lists of bytes or characters.
--
-- The loop that fills a block of a file (Transfer.Read.fill) has at most 131073 rounds: each round
-- but the last adds a byte to a buffer of 131072. The binary search of Fuse.Handles runs on the
-- length of the list, which every step makes shorter. The reader of Portable has a round for each
-- byte, and a file takes more than one. The reader of Proxy.Response has a round for a line, and a
-- fuel above the length of the stream is enough. All other loops go over a list or a tree.
--
-- Not modelled: the capture of screens and the codecs of libs/scrap, the input events (libs/enigo),
-- the virtual display and the application in Dart, which are bindings, copies of other libraries or
-- user interface; the opening of sockets and the TLS and SOCKS5 handshakes; the text of the files
-- of the configuration and their directories, and the address book; the clipboards of the systems,
-- and the locks, logs and condition variables of what is modelled; the random choice of the
-- temporary password.
pub mod Prelude
pub mod BytesCodec
pub mod AddrMangle
pub mod Cliprdr
pub mod Fuse
pub mod LocalFile
pub mod PasswordSecurity
pub mod Transfer
pub mod Serve
pub mod Tcp
pub mod Context
pub mod Channels
pub mod Config
pub mod VideoCodec
pub mod Portable
pub mod Proxy
pub mod Record
pub mod Hosts
