-- ===== src/Lib.antt =====
-- The codecs and connections of go-ios: what they write on the wire, what they make of what a device
-- sends, and which call gets it.
--
-- Dtx models ios/dtx_codec. Dtx/Message is dtxmessage.go with the predicates of decoder.go,
-- Dtx/Auxiliary is dtxprimitivedictionary.go (`ToBytes` is to_bytes, `DecodeAuxiliary` is
-- decode_auxiliary), Dtx/Encoder is encoder.go (`Encode`, `BuildAckMessage`), Dtx/Decoder is
-- decoder.go (`DecodeNonBlocking`, `ReadMessage`) and Dtx/Fragment is fragmentdecoder.go, whose
-- decoder is a record that each call returns anew. A buffer that the Go code writes into is a list of
-- bytes, each write is put_at or copy_at, and what a slice expression out of range does is an error
-- of its own, slice_panicked. The archiver of ios/nskeyedarchiver stands on a library outside the
-- repository: it is the parameter `unarchive` of the decoder, of which nothing is assumed.
--
-- Xpc models ios/xpc/encoding.go. Xpc/Value has the objects, Xpc/Encode the encoders, Xpc/Decode the
-- decoders and Xpc/Message `EncodeMessage` and `DecodeMessage`. A Go map is the list of its entries
-- in the order of an iteration; 64-bit integers, floats and dates are their bit patterns.
--
-- Tunnel/Tlv models ios/tunnel/tlv.go, and Syslog/Vis models ios/syslog/vis.go.
-- PlistCodec models ios/plistcodec.go; the plist library behind `ToPlist` and `Unmarshal` is outside
-- the repository and is two parameters, a printer and a parser. Opack models ios/opack/opack.go, whose
-- output Opack/Read reads with the reader of Opack/Identifiers, since the repository has none.
--
-- Dtx/Channel models ios/dtx_codec/channel.go and Dtx/Connection ios/dtx_codec/connection.go. A
-- channel is a record, and each of its operations returns it anew; a Go channel is a queue that is
-- named by its place in the channel, so that a waiter in `responseWaiters` and the call that made it
-- share one. A call (`sendAndAwaitReply`) is begin_call up to its `select`, and await_reply or time_out
-- after it; `Dispatch` is dispatch; Dtx/Channel/Calls has the method calls. A connection has its
-- channels under the keys of the `sync.Map`, whose type counts; `reader` is reader, with route for one
-- message and global_dispatch for the dispatcher of the global channel, and a request for a channel is
-- begin_request and finish_request. What is sent and handed over is listed in the order in which it
-- happens. The goroutines are step relations, in Dtx/Channel/Steps and Dtx/Connection/Steps: the steps
-- of the reader, of the services and of the ends of contexts come in any order; a call up to its wait
-- is one step, though the code takes its lock twice for it. Identifiers and codes are counted without
-- a bound, where Go has 64 bits.
--
-- Afc models ios/afc: the constants of afc.go, the packets and operations of client.go (`sendPacket`
-- is send_packet, `readPacket` is read_packet, and an operation of a client or a file has its name)
-- and `unsafeEntryName` of fsync.go, with the slash as the system's separator. An operation is a
-- function of the client in a small monad, and `make` panics where the length is no `int`. `Stat`,
-- `WalkDir`, `DeviceInfo` and the copying to and from the host are not modelled.
--
-- Tunnel/Manager models the `TunnelManager` of ios/tunnel/tunnel_api.go (`UpdateTunnels` is
-- update_tunnels, with visit for one round of its loop, `RemoveTunnel` remove_tunnel, `Close` close and
-- `FindTunnel` find_tunnel); the interfaces `tunnelStarter` and `deviceLister`, the clock and the
-- closers of the tunnels are parameters or arguments. Tunnel/Manager/Steps has the goroutine that
-- updates and those that remove and close as a step relation, between whose steps the manager's lock
-- is free. Tunnel/Agent models the HTTP handlers of the same file and the functions that ask them,
-- `RefreshTunnelForDevice` with its loop; the HTTP and JSON libraries and
-- `strings.TrimSpace` are parameters. Tunnel/Framing
-- models ios/tunnel/framing.go, and Tunnel/Control ios/tunnel/codec.go, whose maps are the dictionaries
-- of Xpc/Value and whose ciphers are parameters.
--
-- UsbMux models ios/usbmuxconnection.go (`Send` is send, `ReadMessage` is read_message) and Ncm models
-- ncm/ncm.go (`ReadDatagrams` is read_datagrams), where a slice out of range is the error panicked and
-- the Ethernet library is a parameter.
--
-- Bytes are natural numbers, and a reader is the list of the bytes that it still delivers. Arithmetic
-- of 32 bits has its wrap-around written out (`% 2 ^ 32`); a Go `int` has 64 bits.
--
-- Fuel: decode_auxiliary has as much as the input has bytes, since a round takes eight; decode_body
-- gives decode_object one more than the body has bytes, since a call takes four; write_data,
-- read_coalesced and decode_vis have the length of their input, since a round takes one byte at least;
-- reader gets one round more than the stream has bytes, since a message takes 32, and deliver one
-- more than the queue has messages.
--
-- The loop of `ReadDatagrams` gets one round more than there are bytes for pointers, since a round
-- takes four, and that of `RefreshTunnelForDevice` two more than the timeout has whole halves of a
-- second, since nothing sleeps before the first round.
--
-- Not modelled: sockets (ios/deviceconnection.go, ios/xpc/xpc.go); the tunnel's network interfaces and
-- cryptography; the clients of single device services but that for files; the command line, the REST
-- interface and the tests. `Decompress` in ios/dtx_codec/lz4decompress.go has a result that the
-- decoder only logs.
--
-- Common has the Boolean tests, lists, results, byte orders and buffers that the codecs share; Tests
-- has the theorems at concrete inputs.
pub mod Common
pub mod Dtx
pub mod Xpc
pub mod Tunnel
pub mod Ncm
pub mod UsbMux
pub mod Syslog
pub mod Tests
pub mod PlistCodec
pub mod Opack
pub mod Afc
