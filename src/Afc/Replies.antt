-- ===== src/Afc/Replies.antt =====
-- What the operations of a client make of the device's reply.
use go_ios.Common.{
  ℕ, suc, ◌≡◌, ◌≢◌, refl, ap, ◌∙◌, Bool, true, false, [], ◌∷◌, ◌++◌, length, length-append, take,
  take-append, ltb, ◌==◌, le→ltb_false, if◌then◌else◌, Bool-cases, inl, inr, arith,
}
use go_ios.Common.Bytes.{Bytes, le, un_le, un_le-le, IsU64, length-le}
use go_ios.Common.Result.{Result, ok, err}
use go_ios.Afc.{
  Packet, Client, AfcError, panicked, end_of_file, device_code, return, refuse, then_with, ◌>>=◌,
  status, err_success, check_status, request, mk_dir, remove, open_file, read_file, write_file,
  close_file, is_empty, make_dir, file_open, file_read, file_write, file_close, remove_path,
  remove_path_and_contents,
}
use go_ios.Afc.Packets.{packet, packet_bytes, IsPacket, check_status-packet, request-packet_bytes}

-- the status packet with this code, and the device that delivers it
abbrev pub status_packet : ℕ → ℕ → Bytes → Bytes → Packet
status_packet n code extra pl = packet n status (le 8 code ++ extra) pl

check_status-status_packet :
    (n code : ℕ) (extra pl : Bytes) (c : Client)
    → IsU64 code
    → check_status (status_packet n code extra pl) c ≡ (
      c,
      if code == err_success then ok (status_packet n code extra pl) else err (device_code code),
    )
unfolding check_status
check_status-status_packet n code extra pl c fits =
    let e : un_le (take 8 (le 8 code ++ extra)) ≡ code =
      ap un_le (take-append (le 8 code) extra 8 (length-le 8 code)) ∙ un_le-le 8 code fits in
    let l : ltb (length (le 8 code ++ extra)) 8 ≡ false =
      le→ltb_false (length (le 8 code ++ extra)) 8
        (omega (arith, length-append (le 8 code) extra, length-le 8 code)) in
    elim (Bool-cases (code == err_success)) [
      | inl z ↦ rw (check_status, l, e, z)
      | inr z ↦ rw (check_status, l, e, z)
    ]

module _ (accepts : ℕ → Bool) (all : (n : ℕ) → accepts n ≡ true) (n code : ℕ)
    (extra pl rest : Bytes) (c : Client) (fits : IsPacket n status (le 8 code ++ extra) pl)
    (code_fits : IsU64 code)
    (replies : c.incoming ≡ packet_bytes (status_packet n code extra pl) ++ rest) where
  request-status_packet :
      (operation : ℕ) (hp p : Bytes)
      → (c' : Client) × (c'.incoming ≡ rest)
        × (request accepts operation hp p c ≡ (
          c',
          if code == err_success
              then ok (status_packet n code extra pl)
              else err (device_code code),
        ))
  request-status_packet operation hp p =
      let (w, e) =
        request-packet_bytes accepts all operation hp p n status (le 8 code ++ extra) pl rest c fits
          replies in
      (_, refl, e ∙ check_status-status_packet n code extra pl _ code_fits)

  -- what an operation that gives `a` makes of the status
  abbrev pub Outcome : {A : Type 0} → A → Client × Result AfcError A → Type 0
  Outcome {A} a r =
      (c' : Client) × (c'.incoming ≡ rest)
      × (r ≡ (c', if code == err_success then ok a else err (device_code code)))

  on_status :
      {A : Type 0} (operation : ℕ) (hp p : Bytes) (a : A)
      → Outcome a ((request accepts operation hp p >>= λ pack. return a) c)
  on_status operation hp p a =
      let (c', i, e) = request-status_packet operation hp p in
      (c', i, elim (Bool-cases (code == err_success)) [ inl z ↦ rw (e, z) | inr z ↦ rw (e, z) ])

  -- Where the connection takes what is written and the reply is a status packet: creating a
  -- directory, removing a path with or without its contents, writing to a file and closing it succeed
  -- where the status is zero, and else fail with the device's code; the reply is taken, and what is
  -- behind it is left.
  pub operations-Outcome :
      (p content : Bytes) (recursive : Bool) (handle : ℕ)
      → Outcome tt (mk_dir accepts p c)
        × Outcome tt (remove accepts p recursive c)
        × Outcome (length content) (write_file accepts handle content c)
        × Outcome tt (close_file accepts handle c)
  unfolding mk_dir remove write_file close_file
  operations-Outcome p content recursive handle = (
    on_status make_dir (p ++ (0 ∷ [])) [] tt,
    on_status (if recursive then remove_path_and_contents else remove_path) p [] tt,
    on_status file_write (le 8 handle) content (length content),
    on_status file_close (le 8 handle) [] tt,
  )

end_or_bytes :
    (c : Client) (room : ℕ) (pl : Bytes)
    → then_with {B = Bytes} (refuse (is_empty pl) end_of_file c) (λ u. return (take (suc room) pl))
      ≡ (c, if is_empty pl then err end_of_file else ok (take (suc room) pl))
end_or_bytes c room [] = refl
end_or_bytes c room (b ∷ bs) = refl

module _ (accepts : ℕ → Bool) (all : (n : ℕ) → accepts n ≡ true) (n o : ℕ) (hp pl rest : Bytes)
    (c : Client) (fits : IsPacket n o hp pl) (other : o ≢ status)
    (replies : c.incoming ≡ packet_bytes (packet n o hp pl) ++ rest) where
  pub request-reply :
      (operation : ℕ) (p q : Bytes)
      → (c' : Client) × (c'.incoming ≡ rest)
        × (request accepts operation p q c ≡ (c', ok (packet n o hp pl)))
  request-reply operation p q =
      let (w, e) = request-packet_bytes accepts all operation p q n o hp pl rest c fits replies in
      (_, refl, e ∙ check_status-packet n o hp pl fits _ other)

  -- Where the connection takes what is written and the reply is no status: opening a file gives the
  -- number in the first eight bytes of the reply's header payload, and panics where it has fewer.
  pub open_file-reply :
      (path : Bytes) (mode : ℕ)
      → (c' : Client) × (c'.incoming ≡ rest)
        × (open_file accepts path mode c
            ≡ (c', if ltb (length hp) 8 then err panicked else ok (un_le (take 8 hp))))
  unfolding open_file
  open_file-reply path mode =
      let (c', i, e) = request-reply file_open (le 8 mode ++ (path ++ (0 ∷ []))) [] in
      (c', i, elim (Bool-cases (ltb (length hp) 8)) [ inl z ↦ rw (e, z) | inr z ↦ rw (e, z) ])

  -- Where the connection takes what is written and the reply is no status: reading into a buffer
  -- with room for one byte or more gives the reply's payload as far as the buffer goes, and the end
  -- of the file where the payload is empty.
  pub read_file-reply :
      (handle room : ℕ)
      → (c' : Client) × (c'.incoming ≡ rest)
        × (read_file accepts handle (suc room) c
            ≡ (c', if is_empty pl then err end_of_file else ok (take (suc room) pl)))
  unfolding read_file
  read_file-reply handle room =
      let (c', i, e) = request-reply file_read (le 8 handle ++ le 8 (suc room)) [] in
      (c', i, rw (e) (end_or_bytes c' room pl))
