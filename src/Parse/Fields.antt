-- ===== src/Parse/Fields.antt =====
-- src/parse.rs: `split_fields`.
pub mod Words
use adbfs_rust.Base.{Str, if◌then◌else◌, List, [], ◌∷◌, ◌++◌, is_empty, is_whitespace}

-- The words of `s`, with the open word in front of it.
fields_from : Str → Str → List Str
fields_from word [] = if is_empty word then [] else word ∷ []
fields_from word (c ∷ s) =
    let next = fields_from [] s in
    let on = fields_from (word ++ c ∷ []) s in
    if is_whitespace c then (if is_empty word then next else word ∷ next) else on

unfoldable pub split_fields : Str → List Str
unfolding fields_from
split_fields s = fields_from [] s
