-- ===== src/Base/Append.antt =====
-- Concatenation of texts under a plain name, beside that of lists.
use Prim.Native.String.{String, ◌++◌}

abbrev pub append : String → String → String
append a b = a ++ b
