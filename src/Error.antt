-- ===== src/Error.antt =====
-- include/CDSA/error.h and src/error.c: the status codes and their messages.
use Prim.Native.String.{String}

-- `CDSA_STATUS`: 0 for `ok`, then -1 to -7 in this order.
pub data Status : Type 0 where
  ok oom not_found exists invalid full empty iter_invalidated : Status

-- `cdsa_strerror`, whose `default` takes the last code.
unfoldable pub strerror : Status → String
strerror ok = "OK"
strerror oom = "out of memory"
strerror not_found = "not found"
strerror exists = "key already exists"
strerror invalid = "invalid argument"
strerror full = "structure is full"
strerror empty = "structure is empty"
strerror iter_invalidated = "unknown error"
