-- ===== src/Queue/Retention/Quotes.antt =====
-- pkg/queue/postgres/retention.go: the texts that can stand in a statement between quotes as they are.
use Prim.Native.Char.{code}
use Prim.Native.String.{String, [], ◌∷◌}
use go_base.Base.{Bool, true, ◌&&◌, not, ◌==◌}

-- No quote and no NUL.
unfoldable pub is_plain : String → Bool
is_plain [] = true
is_plain (c ∷ s) = let rest = is_plain s in not (code c == 39) && (not (code c == 0) && rest)
