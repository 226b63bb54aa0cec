-- ===== src/Tunnel/Tlv/RoundTrip.antt =====
-- `readCoalesced` after `writeData`.
use go_ios.Common.{ℕ, ◌≤◌, ◌≡◌, List, [], ◌∷◌, ◌++◌, length, ◌==◌, if◌then◌else◌}
use go_ios.Common.Bytes.{Bytes}
use go_ios.Common.Result.{ok}
use go_ios.Tunnel.Tlv.{write_data, read_chunks}

-- The reader finds `out` in `s` on fuel of the length of `s`, or more.
abbrev Reads : ℕ → Bytes → Bytes → Type 0
Reads t s out = (f : ℕ) → length s ≤ f → read_chunks f t s ≡ ok out

-- the part of a record that a reader for `t` keeps
unfoldable kept : ℕ → ℕ → Bytes → Bytes
kept t u value = if u == t then value else []

-- The buffer after `writeData` of each item, and the values of one type, one behind the other.
unfoldable pub write_all : List (ℕ × Bytes) → Bytes
write_all [] = []
write_all ((u, value) ∷ items) = write_data u value ++ write_all items

unfoldable pub values_of : ℕ → List (ℕ × Bytes) → Bytes
values_of t [] = []
values_of t ((u, value) ∷ items) = if u == t then value ++ values_of t items else values_of t items
