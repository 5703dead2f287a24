-- ===== src/Escape/Quoted.antt =====
-- A reader of quoted strings, independent of the escaping, reads back what was escaped.
use okws.Prelude.{
  ℕ, ◌≡◌, ◌≢◌, Bytes, Bool, true, false, [], ◌∷◌, Option, none, some, ◌==◌, if◌then◌else◌,
}

abbrev pub prepend : ℕ → Option (Bytes × Bytes) → Option (Bytes × Bytes)
prepend c none = none
prepend c (some (s, rest)) = some (c ∷ s, rest)

abbrev escaped : Option ℕ → Option (Bytes × Bytes) → Option (Bytes × Bytes)
escaped none r = none
escaped (some c) r = prepend c r

-- Reads up to the closing quote; `unname` says which byte a backslash and a byte stand for.
pub read_chars : (ℕ → Option ℕ) → Bytes → Option (Bytes × Bytes)
read_chars unname [] = none
read_chars unname (c ∷ []) = if c == b'"' then some ([], []) else none
read_chars unname (c ∷ d ∷ cs) =
    let two = escaped (unname d) (read_chars unname cs) in
    let one = prepend c (read_chars unname (d ∷ cs)) in
    if c == b'"' then some ([], d ∷ cs) else if c == b'\\' then two else one

-- A string in quotes at the head of a text, and the text behind it.
pub read_quoted : (ℕ → Option ℕ) → Bytes → Option (Bytes × Bytes)
read_quoted unname [] = none
read_quoted unname (c ∷ cs) = if c == b'"' then read_chars unname cs else none

-- The escapes of JSON that stand for one byte each, less `\/`, `\b` and `\f`.
pub json_unname : ℕ → Option ℕ
json_unname d =
    if d == b'n'
    then some b'\n'
    else if d == b't'
    then some b'\t'
    else if d == b'r'
    then some b'\r'
    else if d == b'\\'
    then some b'\\'
    else if d == b'"'
    then some b'"'
    else none

-- The same of C.
pub c_unname : ℕ → Option ℕ
c_unname d =
    if d == b'n'
    then some b'\n'
    else if d == b'\\'
    then some b'\\'
    else if d == b'"'
    then some b'"'
    else none

-- What the escaping has to know of the reader.
record Inverts (special : ℕ → Bool) (name : ℕ → ℕ) (unname : ℕ → Option ℕ) : Type 0 where
  named : (c : ℕ) → special c ≡ true → unname (name c) ≡ some c
  plain : (c : ℕ) → special c ≡ false → (c ≢ b'"') × (c ≢ b'\\')
