-- ===== src/Base/Outcomes.antt =====
-- Results of fallible calls: `Result<T, E>` with the panics of the code as a third outcome.

pub data Result (E A : Type 0) : Type 0 where
  ok : A → Result E A
  err : E → Result E A
  -- The thread panicked: no error is returned and nothing can handle it.
  panicked : Result E A

infixl 5 ◌>>=◌
abbrev pub ◌>>=◌ : {E A B : Type 0} → Result E A → (A → Result E B) → Result E B
ok a >>= f = f a
err e >>= f = err e
panicked >>= f = panicked

-- `map_err`
abbrev pub map_err : {E F A : Type 0} → (E → F) → Result E A → Result F A
map_err f (ok a) = ok a
map_err f (err e) = err (f e)
map_err f panicked = panicked
