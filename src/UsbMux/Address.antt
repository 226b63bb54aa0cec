-- ===== src/UsbMux/Address.antt =====
-- The address of the daemon's socket. A text is its bytes, and the scheme of an override is ASCII.
use go_ios.Common.{
  ℕ, ◌+◌, ◌≡◌, refl, ap, ◌∙◌, Bool, true, false, ◌&&◌, ◌||◌, Option, none, some, [], ◌∷◌, ◌++◌,
  ◌==◌, leb, map, if◌then◌else◌,
}
use go_ios.Common.Bytes.{Bytes}
use go_ios.Common.Text.{codes}
use go_ios.Common.Maps.{bytes_same}

-- whether a text begins with "://"
abbrev pub at_separator : Bytes → Bool
at_separator (c ∷ (d ∷ (e ∷ s))) = c == b':' && (d == b'/' && e == b'/')
at_separator _ = false

abbrev behind_separator : Bytes → Bytes
behind_separator (c ∷ (d ∷ (e ∷ s))) = s
behind_separator _ = []

abbrev before : ℕ → Option (Bytes × Bytes) → Option (Bytes × Bytes)
before c none = none
before c (some (a, b)) = some (c ∷ a, b)

-- the parts before and behind the first "://"
unfoldable pub cut_separator : Bytes → Option (Bytes × Bytes)
cut_separator [] = none
cut_separator (c ∷ s) =
    let rest = before c (cut_separator s) in
    if at_separator (c ∷ s) then some ([], behind_separator (c ∷ s)) else rest

-- two chunks, or a panic
abbrev alone : Bytes × Bytes → Option (Bytes × Bytes) → Option (Bytes × Bytes)
alone p none = some p
alone p (some q) = none

abbrev two_chunks : Option (Bytes × Bytes) → Option (Bytes × Bytes)
two_chunks none = none
two_chunks (some (a, b)) = alone (a, b) (cut_separator b)

unfoldable pub get_socket_type_and_address : Bytes → Option (Bytes × Bytes)
get_socket_type_and_address s = two_chunks (cut_separator s)

abbrev pub lower : ℕ → ℕ
lower c = if leb b'A' c && leb c b'Z' then c + 32 else c

abbrev pub has_colon : Bytes → Bool
has_colon [] = false
has_colon (c ∷ s) = c == b':' || has_colon s

abbrev scheme_for : Bytes → Bytes
scheme_for s = if has_colon s then codes "tcp" else codes "unix"

abbrev on_override : Bytes → Option (Bytes × Bytes) → Bytes
on_override s (some (a, b)) = map lower a ++ (codes "://" ++ b)
on_override s none = scheme_for s ++ (codes "://" ++ s)

-- the socket, where the environment overrides it or not
unfoldable pub get_usbmuxd_socket : Bytes → Bool → Bytes
get_usbmuxd_socket [] windows =
    if windows then codes "tcp://127.0.0.1:27015" else codes "unix:///var/run/usbmuxd"
get_usbmuxd_socket (c ∷ s) windows = on_override (c ∷ s) (cut_separator (c ∷ s))

-- the name, or a panic where the scheme is another one
unfoldable pub to_unix_socket_path : Bytes → Option Bytes
unfolding get_socket_type_and_address
to_unix_socket_path s = elim (get_socket_type_and_address s) [
  | none ↦ none
  | some (scheme, name) ↦ if bytes_same scheme (codes "unix") then some name else none
]

cut_tcp : (x : Bytes) → cut_separator (codes "tcp" ++ (codes "://" ++ x)) ≡ some (codes "tcp", x)
unfolding cut_separator
cut_tcp x = refl

cut_unix : (x : Bytes) → cut_separator (codes "unix" ++ (codes "://" ++ x)) ≡ some (codes "unix", x)
unfolding cut_separator
cut_unix x = refl

chunks-bare : (a b : Bytes) → cut_separator b ≡ none → two_chunks (some (a, b)) ≡ some (a, b)
chunks-bare a b h = ap (alone (a, b)) h

module _ (c : ℕ) (s : Bytes) (bare : cut_separator (c ∷ s) ≡ none) where
  overridden :
      (windows : Bool)
      → get_usbmuxd_socket (c ∷ s) windows ≡ scheme_for (c ∷ s) ++ (codes "://" ++ (c ∷ s))
  unfolding get_usbmuxd_socket
  overridden windows = ap (on_override (c ∷ s)) bare

  taken_apart :
      (tcp : Bool)
      → let scheme = if tcp then codes "tcp" else codes "unix" in
        get_socket_type_and_address (scheme ++ (codes "://" ++ (c ∷ s))) ≡ some (scheme, c ∷ s)
  unfolding get_socket_type_and_address
  taken_apart true =
      rw (get_socket_type_and_address, cut_tcp (c ∷ s)) (chunks-bare (codes "tcp") (c ∷ s) bare)
  taken_apart false =
      rw (get_socket_type_and_address, cut_unix (c ∷ s)) (chunks-bare (codes "unix") (c ∷ s) bare)

  -- An override without a scheme is dialled as it stands, over TCP where it has a colon, and else as a
  -- Unix socket.
  socket_without_scheme :
      (windows : Bool)
      → get_socket_type_and_address (get_usbmuxd_socket (c ∷ s) windows)
        ≡ some (scheme_for (c ∷ s), c ∷ s)
  socket_without_scheme windows =
      ap get_socket_type_and_address (overridden windows) ∙ taken_apart (has_colon (c ∷ s))
