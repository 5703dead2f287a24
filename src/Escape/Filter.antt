-- ===== src/Escape/Filter.antt =====
-- The HTML filter of libpub/escape.C, with the table of tags (`html_filter_bhash_t`): `allowed` says
-- whether a text is in the table. The string in C ends at its zero byte; a text here holds none.
-- `none` is undefined behaviour: a string of negative length, or a read behind the end.
pub mod Safe
pub mod Quote
use okws.Prelude.{
  ℕ, zero, suc, ◌+◌, ◌≡◌, ◌≢◌, arith, Bool, true, false, ◌&&◌, ◌||◌, Bytes, [], ◌∷◌, ◌++◌, codes,
  length, All, ◌==◌, if◌then◌else◌, Option, none, some,
}
use okws.Abuf.Scan.{isspace}
use okws.Pair.{str_eq}

-- `strchr`: the text before the first `c`, and the text behind it.
unfoldable pub strchr : ℕ → Bytes → Option (Bytes × Bytes)
strchr c [] = none
strchr c (b ∷ s) =
    let found : Option (Bytes × Bytes) = elim (strchr c s) [
      | none ↦ none
      | some p ↦ some (b ∷ p.0, p.1)
    ] in
    if b == c then some ([], s) else found

-- The loops of `match`, which leave at least one character.
unfoldable pub trim_left : Bytes → Bytes
trim_left [] = []
trim_left (c ∷ []) = c ∷ []
trim_left (c ∷ d ∷ s) = if isspace c then trim_left (d ∷ s) else c ∷ d ∷ s

unfoldable pub all_space : Bytes → Bool
all_space [] = true
all_space (c ∷ s) = isspace c && all_space s

unfoldable pub trim_right : Bytes → Bytes
unfolding all_space
trim_right [] = []
trim_right (c ∷ s) = if all_space s then c ∷ [] else c ∷ trim_right s

-- Whether a text ends in a slash.
unfoldable pub ends_in_slash : Bytes → Bool
ends_in_slash [] = false
ends_in_slash (c ∷ []) = c == b'/'
ends_in_slash (c ∷ d ∷ s) = ends_in_slash (d ∷ s)

-- The text from `inner` to `outter`. `inner` moves on if the second character behind the `<` is a
-- slash, and `outter`, which is the last character before the `>`, moves on to it if it is one.
abbrev pub second_is_slash : Bytes → Bool
second_is_slash (c ∷ d ∷ s) = d == b'/'
second_is_slash _ = false

abbrev pub without_first : Bytes → Option Bytes
without_first [] = none
without_first (c ∷ s) = some s

unfoldable pub tag_text : Bytes → Bytes → Option Bytes
unfolding ends_in_slash
tag_text tag rest =
    let text = if ends_in_slash tag then tag ++ (b'>' ∷ []) else tag in
    if second_is_slash (tag ++ b'>' ∷ rest) then without_first text else some text

-- `handle_tag`, of what stands behind the `<`: the text added, and the text that is left.
abbrev pub known_tag :
    (Bytes → Bool) → Bytes → Bytes → Bytes → Option Bytes → Option (Bytes × Bytes)
known_tag allowed s tag rest none = none
known_tag allowed s tag rest (some text) =
    if allowed (trim_right (trim_left text))
    then some (b'<' ∷ (tag ++ (b'>' ∷ [])), rest)
    else some (codes "&lt;", s)

abbrev pub tag_found : (Bytes → Bool) → Bytes → Option (Bytes × Bytes) → Option (Bytes × Bytes)
tag_found allowed s none = some ([], [])
tag_found allowed s (some p) = known_tag allowed s p.0 p.1 (tag_text p.0 p.1)

unfoldable pub handle_tag : (Bytes → Bool) → Bytes → Option (Bytes × Bytes)
unfolding tag_text strchr trim_left trim_right
handle_tag allowed s = tag_found allowed s (strchr b'>' s)

unfoldable pub is_safe_entity : Bytes → Bool
unfolding str_eq
is_safe_entity s =
    str_eq s (codes "lt")
    || str_eq s (codes "gt")
    || str_eq s (codes "amp")
    || str_eq s (codes "#35")
    || str_eq s (codes "quot")

-- The case of `&`, of what stands behind it.
abbrev pub amp_found : Bytes → Option (Bytes × Bytes) → Bytes × Bytes
amp_found s none = (codes "&amp;", s)
amp_found s (some p) =
    if is_safe_entity p.0 then (b'&' ∷ (p.0 ++ (b';' ∷ [])), p.1) else (codes "&amp;", s)

unfoldable pub handle_amp : Bytes → Bytes × Bytes
unfolding strchr is_safe_entity
handle_amp s = amp_found s (strchr b';' s)

-- The case of the double quote has no `break`, and the next character is added as it is.
abbrev pub handle_quote : Bytes → Option (Bytes × Bytes)
handle_quote [] = none
handle_quote (c ∷ s) = some (codes "&quot;" ++ (c ∷ []), s)

-- One round of `run`.
unfoldable pub filter_round : (Bytes → Bool) → ℕ → Bytes → Option (Bytes × Bytes)
unfolding handle_tag handle_amp
filter_round allowed c s =
    if c == b'<'
    then handle_tag allowed s
    else if c == b'&'
    then some (handle_amp s)
    else if c == b'#'
    then some (codes "&#35;", s)
    else if c == b'"'
    then handle_quote s
    else some (c ∷ [], s)

abbrev pub prefixed : Bytes → Option Bytes → Option Bytes
prefixed out none = none
prefixed out (some s) = some (out ++ s)

abbrev pub go_on : (Bytes → Option Bytes) → Option (Bytes × Bytes) → Option Bytes
go_on again none = none
go_on again (some p) = prefixed p.0 (again p.1)

-- `run`, on fuel: a round takes at least one character, so the length is enough.
unfoldable pub run_filter : ℕ → (Bytes → Bool) → Bytes → Option Bytes
unfolding filter_round
run_filter fuel allowed [] = some []
run_filter zero allowed (c ∷ s) = none
run_filter (suc fuel) allowed (c ∷ s) =
    let again = λ (left : Bytes). run_filter fuel allowed left in
    go_on again (filter_round allowed c s)
