-- ===== src/Dtx/Connection/Closing.antt =====
-- What `Err` returns once the connection is closed.
use go_ios.Common.{◌≡◌, refl, ap, ◌∙◌, true, false, Option, none, some, List, [], ◌∷◌, arith}
use go_ios.Dtx.Connection.{Connection, ConnectionError, connection_closed, close, close_device}

module _ {O : Type 0} where
  -- the connection after these calls of `close`
  unfoldable pub close_all : List (Option ConnectionError) → Connection O → Connection O
  close_all [] c = c
  close_all (e ∷ es) c = close_all es (close e c)

  close-closed : (e : Option ConnectionError) (c : Connection O) → c.closed ≡ true → close e c ≡ c
  unfolding close
  close-closed e c h = ground arith

  close-open :
      (e : Option ConnectionError) (c : Connection O)
      → c.closed ≡ false
      → close e c ≡ record c { closed = true; error = e }
  unfolding close
  close-open e c h = ground arith

  close_all-closed :
      (es : List (Option ConnectionError)) (c : Connection O) → c.closed ≡ true → close_all es c ≡ c
  unfolding close_all
  close_all-closed [] c h = refl
  close_all-closed (e ∷ es) c h = ap (close_all es) (close-closed e c h) ∙ close_all-closed es c h

  -- Of all the errors that an open connection is closed with, by `Close` and by its reader in any
  -- order, `Err` returns the first, and nothing but this and the mark that it is closed changes.
  pub close_all_first :
      (e : Option ConnectionError) (es : List (Option ConnectionError)) (c : Connection O)
      → c.closed ≡ false
      → close_all (e ∷ es) c ≡ record c { closed = true; error = e }
  unfolding close_all
  close_all_first e es c h =
      ap (close_all es) (close-open e c h)
      ∙ close_all-closed es (record c { closed = true; error = e }) refl

  -- After a `Close` of an open connection whose device connection closes without an error, `Err`
  -- returns nil, whatever is closed later; without a device connection it returns
  -- ErrConnectionClosed.
  pub close_device-error :
      (es : List (Option ConnectionError)) (c : Connection O)
      → c.closed ≡ false
      → ((close_all es (close_device (some none) c)).error ≡ none)
        × ((close_all es (close_device none c)).error ≡ some connection_closed)
  unfolding close_device close_all
  close_device-error es c h = (
    ap (λ d. d.error) (close_all_first none es c h),
    ap (λ d. d.error) (close_all_first (some connection_closed) es c h),
  )
