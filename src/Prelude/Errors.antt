-- ===== src/Prelude/Errors.antt =====
-- Go errors: a message, a message wrapped round another error (`%w`), and the sentinels that the
-- program tests for with `errors.Is`.
use mathlib.Core.Path.{◌≡◌, refl}
use mathlib.Core.Logic.{◌⊎◌, inl, inr}
use mathlib.Core.Bool.{Bool, true, false}
use remote_console.Prelude.Text.{Str}

pub data Error : Type 0 where
  new : Str → Error
  wrap : Str → Error → Error
  canceled not_exist eof eintr eio : Error

-- errors.Is(err, context.Canceled)
unfoldable pub is_canceled : Error → Bool
is_canceled (wrap s e) = is_canceled e
is_canceled canceled = true
is_canceled _ = false

-- errors.Is(err, os.ErrNotExist)
unfoldable pub is_not_exist : Error → Bool
is_not_exist (wrap s e) = is_not_exist e
is_not_exist not_exist = true
is_not_exist _ = false

-- errors.Is(err, io.EOF)
unfoldable pub is_eof : Error → Bool
is_eof (wrap s e) = is_eof e
is_eof eof = true
is_eof _ = false

-- errors.Is(err, syscall.EINTR)
unfoldable pub is_eintr : Error → Bool
is_eintr (wrap s e) = is_eintr e
is_eintr eintr = true
is_eintr _ = false

pub data Result {ℓ} (A : Type ℓ) : Type ℓ where
  ok : A → Result A
  err : Error → Result A

pub Result-cases {ℓ} :
    {A : Type ℓ} (r : Result A) → ((a : A) × (r ≡ ok a)) ⊎ ((e : Error) × (r ≡ err e))
Result-cases (ok a) = inl (a, refl)
Result-cases (err e) = inr (e, refl)
