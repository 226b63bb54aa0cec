-- ===== src/Afc/Listing.antt =====
-- A directory's names, from the device to the caller of `List`.
use go_ios.Common.{◌≡◌, ◌≢◌, true, List, [], ◌∷◌, ◌++◌, All}
use go_ios.Common.Bytes.{Bytes}
use go_ios.Afc.{is_listed}

-- what a device sends for these names
abbrev pub terminated : List Bytes → Bytes
terminated [] = []
terminated (n ∷ ns) = n ++ (0 ∷ terminated ns)

-- a name without a zero byte that `List` does not drop
abbrev pub IsName : Bytes → Type 0
IsName n = All (λ c. c ≢ 0) n × (is_listed n ≡ true)
