-- ===== src/Base/Errors.antt =====
-- Go's `error` values, as far as the driver looks into them: the text, whether `os.IsNotExist`
-- holds, the sentinel that `errors.Is` finds, and the gRPC code of a status error.
use Prim.Native.String.{String, ◌++◌ as ◌<>◌}

-- google.golang.org/grpc/codes, those that the driver returns.
pub data Code : Type 0 where
  invalid_argument internal unavailable unimplemented : Code

abbrev pub code_name : Code → String
code_name invalid_argument = "InvalidArgument"
code_name internal = "Internal"
code_name unavailable = "Unavailable"
code_name unimplemented = "Unimplemented"

pub data Error : Type 0 where
  -- errors.New, or fmt.Errorf with no `%w`
  plain : String → Error
  -- an error of package os for which os.IsNotExist holds
  not_exist : String → Error
  -- fmt.Errorf(prefix + ": %w", cause): os.IsNotExist does not see through it
  wrapped : String → Error → Error
  -- status.Error(code, text)
  status : Code → String → Error

-- The method `Error()`.
abbrev pub message : Error → String
message (plain t) = t
message (not_exist t) = t
message (wrapped prefix cause) = prefix <> (": " <> message cause)
message (status c t) = "rpc error: code = " <> (code_name c <> (" desc = " <> t))

-- The pair `(value, error)` that a call of an external interface returns.
pub data Result {ℓ} (A : Type ℓ) : Type ℓ where
  ok : A → Result A
  err : Error → Result A
