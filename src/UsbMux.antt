-- ===== src/UsbMux.antt =====
-- ios/usbmuxconnection.go, with the size limit of utils.go: messages to and from the usbmux daemon, and
-- the address of its socket. A connection has the bytes that it wrote and those that the daemon will
-- still deliver; `accepts n` tells whether the write number n is taken, and `to_plist` is the plist library's printer.
pub mod Tags
pub mod Address
use go_ios.Common.{
  ℕ, ◌+◌, ◌-◌, ◌%◌, ◌^◌, Bool, true, false, Option, none, some, List, [], ◌∷◌, ◌++◌, length, take,
  drop, ltb, if◌then◌else◌,
}
use go_ios.Common.Bytes.{Bytes, le, un_le}
use go_ios.Common.Result.{Result, ok, err}

pub record UsbMuxHeader : Type 0 where
  pub message_length : ℕ
  pub version : ℕ
  pub request : ℕ
  pub tag : ℕ

pub record UsbMuxMessage : Type 0 where
  pub header : UsbMuxHeader
  pub payload : Bytes

pub record UsbMuxConnection : Type 0 where
  pub tag : ℕ
  pub released : Bool
  pub writes : ℕ
  pub written : Bytes
  pub incoming : Bytes

pub data UsbMuxError : Type 0 where
  eof write_failed short_header invalid_length exceeds_maximum short_payload : UsbMuxError

abbrev pub max_message_size : ℕ
max_message_size = 2 ^ 24

abbrev pub u32 : ℕ → ℕ
u32 n = n % 2 ^ 32

unfoldable pub new_usb_mux_connection : Bytes → UsbMuxConnection
new_usb_mux_connection incoming = record {
  tag = 0;
  released = false;
  writes = 0;
  written = [];
  incoming = incoming;
}

unfoldable pub release_device_connection : UsbMuxConnection → UsbMuxConnection
release_device_connection c = record c { released = true }

unfoldable pub header_bytes : UsbMuxHeader → Bytes
header_bytes h = le 4 h.message_length ++ (le 4 h.version ++ (le 4 h.request ++ le 4 h.tag))

unfoldable pub parse_header : Bytes → UsbMuxHeader
parse_header s = record {
  message_length = un_le (take 4 s);
  version = un_le (take 4 (drop 4 s));
  request = un_le (take 4 (drop 8 s));
  tag = un_le (take 4 (drop 12 s));
}

unfoldable pub header_for : ℕ → ℕ → UsbMuxHeader
header_for len tag = record {
  message_length = u32 (16 + u32 len);
  version = 1;
  request = 8;
  tag = tag;
}

-- behind the header
unfoldable pub decode_payload : UsbMuxHeader → Bytes → Bytes × Result UsbMuxError UsbMuxMessage
decode_payload h s =
    if ltb h.message_length 16
    then (s, err invalid_length)
    else if ltb max_message_size h.message_length
    then (s, err exceeds_maximum)
    else if ltb (length s) (h.message_length - 16)
    then ([], err short_payload)
    else (
      drop (h.message_length - 16) s,
      ok (record { header = h; payload = take (h.message_length - 16) s }),
    )

unfoldable pub decode : Bytes → Bytes × Result UsbMuxError UsbMuxMessage
decode s =
    if ltb (length s) 16
    then ([], err short_header)
    else decode_payload (parse_header (take 16 s)) (drop 16 s)

unfoldable pub read_message : UsbMuxConnection → UsbMuxConnection × Result UsbMuxError UsbMuxMessage
read_message c =
    if c.released
    then (c, err eof)
    else let (s, r) = decode c.incoming in (record c { incoming = s }, r)

module _ (accepts : ℕ → Bool) where
  unfoldable pub write : Bytes → UsbMuxConnection → UsbMuxConnection × Result UsbMuxError (Unit {0})
  write bytes c =
      let next = record c { writes = c.writes + 1 } in
      if accepts c.writes
      then (record next { written = c.written ++ bytes }, ok tt)
      else (next, err write_failed)

  abbrev pub if_written :
      UsbMuxConnection × Result UsbMuxError (Unit {0})
      → (UsbMuxConnection → UsbMuxConnection × Result UsbMuxError (Unit {0}))
      → UsbMuxConnection × Result UsbMuxError (Unit {0})
  if_written (c, ok u) f = f c
  if_written (c, err e) f = (c, err e)

  -- the header, and then what follows it
  unfoldable pub write_both :
      Bytes → Bytes → UsbMuxConnection → UsbMuxConnection × Result UsbMuxError (Unit {0})
  write_both header payload c = if_written (write header c) (write payload)

  unfoldable pub send_mux_message :
      UsbMuxMessage → UsbMuxConnection → UsbMuxConnection × Result UsbMuxError (Unit {0})
  send_mux_message m c =
      if c.released then (c, err eof) else write_both (header_bytes m.header) m.payload c

  module _ {M : Type 0} (to_plist : M → Bytes) where
    unfoldable pub encode : M → UsbMuxConnection → UsbMuxConnection × Result UsbMuxError (Unit {0})
    encode m c = write_both (header_bytes (header_for (length (to_plist m)) c.tag)) (to_plist m) c

    -- The tag goes up before the message is written.
    unfoldable pub send : M → UsbMuxConnection → UsbMuxConnection × Result UsbMuxError (Unit {0})
    send m c = if c.released then (c, err eof) else encode m (record c { tag = u32 (c.tag + 1) })
