-- ===== src/Tests/Afc.antt =====
-- ios/afc/client.go at a concrete client and replies.
use go_ios.Common.{ℕ, ◌≡◌, refl, Bool, true, List, [], ◌∷◌, ◌++◌, ltb, All, if◌then◌else◌, arith}
use go_ios.Common.Bytes.{Bytes, le, un_le}
use go_ios.Common.Result.{ok, err}
use go_ios.Afc.{
  Client, panicked, device_code, status, file_write, send_packet, read_packet, open_file, mk_dir,
  remove, write_file, close_file, entries,
}
use go_ios.Afc.Packets.{packet, packet_bytes, IsPacket, read_packet-send_packet}
use go_ios.Afc.Replies.{status_packet, operations-Outcome, open_file-reply}
use go_ios.Afc.Listing.{terminated}
use go_ios.Afc.Names.{IsInside, entries-IsInside}

abbrev takes_all : ℕ → Bool
takes_all n = true

abbrev client : Bytes → Client
client incoming = record { number = 4; writes = 0; written = []; incoming = incoming }

fits : IsPacket 5 file_write (1 ∷ (2 ∷ [])) (3 ∷ [])
fits = record { number_fits = omega arith; operation_fits = omega arith; size_fits = omega arith }

read_packet-send_packet_example :
    (c' : Client) × (bytes : Bytes) × (send_packet takes_all file_write
        (1 ∷ (2 ∷ []))
        (3 ∷ [])
        (client [])
      ≡ (c', ok tt))
    × (c'.number ≡ 5)
    × (c'.written ≡ bytes)
    × (read_packet (record (client []) { incoming = bytes ++ (9 ∷ []) })
        ≡ (client (9 ∷ []), ok (packet 5 file_write (1 ∷ (2 ∷ [])) (3 ∷ []))))
read_packet-send_packet_example =
    read_packet-send_packet takes_all (λ n. refl) file_write (1 ∷ (2 ∷ [])) (3 ∷ []) (9 ∷ [])
      (client []) (client []) fits (omega arith)

-- the device denies it
abbrev denied : Client
denied = client (packet_bytes (status_packet 5 10 [] []) ++ (9 ∷ []))

denied-IsPacket : IsPacket 5 status (le 8 10 ++ []) []
unfolding le
denied-IsPacket = record {
  number_fits = omega arith;
  operation_fits = omega arith;
  size_fits = omega arith;
}

operations-Outcome_example :
    ((c' : Client) × (c'.incoming ≡ 9 ∷ [])
      × (mk_dir takes_all (b'a' ∷ []) denied ≡ (c', err (device_code 10))))
    × ((c' : Client) × (c'.incoming ≡ 9 ∷ [])
        × (remove takes_all (b'a' ∷ []) true denied ≡ (c', err (device_code 10))))
    × ((c' : Client) × (c'.incoming ≡ 9 ∷ [])
        × (write_file takes_all 7 (1 ∷ []) denied ≡ (c', err (device_code 10))))
    × ((c' : Client) × (c'.incoming ≡ 9 ∷ [])
        × (close_file takes_all 7 denied ≡ (c', err (device_code 10))))
operations-Outcome_example =
    operations-Outcome takes_all (λ n. refl) 5 10 [] [] (9 ∷ []) denied denied-IsPacket
      (omega arith) refl (b'a' ∷ []) (1 ∷ []) true 7

-- a reply whose header payload is too short for a handle
abbrev short : Client
short = client (packet_bytes (packet 5 14 (1 ∷ []) (2 ∷ (3 ∷ []))) ++ [])

short-IsPacket : IsPacket 5 14 (1 ∷ []) (2 ∷ (3 ∷ []))
short-IsPacket = record {
  number_fits = omega arith;
  operation_fits = omega arith;
  size_fits = omega arith;
}

open_file-reply_example :
    (c' : Client) × (c'.incoming ≡ [])
    × (open_file takes_all (b'a' ∷ []) 1 short
        ≡ (c', if ltb 1 8 then err panicked else ok (un_le (1 ∷ []))))
open_file-reply_example =
    open_file-reply takes_all (λ n. refl) 5 14 (1 ∷ []) (2 ∷ (3 ∷ [])) [] short short-IsPacket
      (omega arith) refl (b'a' ∷ []) 1

abbrev names : List Bytes
names = (b'a' ∷ []) ∷ ((b'b' ∷ (b'.' ∷ [])) ∷ [])

abbrev listing : Client
listing = client (packet_bytes (packet 5 3 [] (terminated names)) ++ [])

-- "/x", "a/../b" and "c" are sent
entries-IsInside_example : All IsInside (
    entries (
      b'/'
      ∷ (b'x'
          ∷ (0 ∷ (b'a' ∷ (b'/' ∷ (b'.' ∷ (b'.' ∷ (b'/' ∷ (b'b' ∷ (0 ∷ (b'c' ∷ (0 ∷ [])))))))))))))
entries-IsInside_example = entries-IsInside (
    b'/'
    ∷ (b'x' ∷ (0 ∷ (b'a' ∷ (b'/' ∷ (b'.' ∷ (b'.' ∷ (b'/' ∷ (b'b' ∷ (0 ∷ (b'c' ∷ (0 ∷ []))))))))))))
