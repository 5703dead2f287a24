-- ===== src/Abuf/Stream.antt =====
-- The buffer as a stream: `get` and `unget` on the bytes that are still to come, however the source
-- cuts them.
use okws.Prelude.{
  ℕ, ◌<◌, ◌≤◌, ◌≡◌, ◌≢◌, ◌⊎◌, Bool, true, false, Bytes, List, [], ◌∷◌, ◌++◌, length, All, none,
}
use okws.Abuf.{
  AbufStat, abuf_ok, abuf_wait, abuf_eof, Got, chr, eofchar, waitchar, AbufIndata, Abuf, get,
}

-- Bytes come in chunks that are not empty, with waits between them.
abbrev pub IsChunk : AbufIndata → Type 0
IsChunk d = ((d.erc ≡ abuf_ok) × (d.bytes ≢ [])) ⊎ ((d.erc ≡ abuf_wait) × (d.bytes ≡ []))

abbrev pub chunks : List AbufIndata → Bytes
chunks [] = []
chunks (d ∷ ds) = d.bytes ++ chunks ds

abbrev pub pushed : Bool → Got → Bytes
pushed true (chr c) = c ∷ []
pushed _ _ = []

-- The bytes that `get` has still to return.
unfoldable pub rest : Abuf → Bytes
rest a = pushed a.bc a.lch ++ (a.cur ++ chunks a.src)

abbrev pub IsState : AbufStat → Bytes → List AbufIndata → Type 0
IsState abuf_ok cur src = Unit
IsState abuf_wait cur src = cur ≡ []
IsState abuf_eof cur src = (cur ≡ []) × (src ≡ [])
IsState _ cur src = ⊥

-- No limit is set, and the source keeps to its protocol.
pub record IsStream (a : Abuf) : Type 0 where
  pub no_lim : a.lim ≡ none
  pub source : All IsChunk a.src
  pub state : IsState a.erc a.cur a.src
  pub pushed_back : a.bc ≡ true → a.lch ≢ waitchar
  pub last_eof : a.lch ≡ eofchar → (a.cur ≡ []) × (a.src ≡ [])

-- What `get` did: `GotChar` holds of a byte and the new state, and so on.
pub record GotChar (a : Abuf) (c : ℕ) (a' : Abuf) : Type 0 where
  pub result : get a ≡ (chr c, a')
  pub taken : rest a ≡ c ∷ rest a'
  pub stream : IsStream a'
  pub last : a'.lch ≡ chr c
  pub sources : length a'.src ≤ length a.src
  pub free : a'.bc ≡ false

pub record GotEof (a : Abuf) (a' : Abuf) : Type 0 where
  pub result : get a ≡ (eofchar, a')
  pub ended : rest a ≡ []
  pub still : rest a' ≡ []
  pub stream : IsStream a'

pub record GotWait (a : Abuf) (a' : Abuf) : Type 0 where
  pub result : get a ≡ (waitchar, a')
  pub same : rest a' ≡ rest a
  pub stream : IsStream a'
  pub sources : length a'.src ≤ length a.src
  pub fewer : a.erc ≡ abuf_ok → length a'.src < length a.src

abbrev pub Gets : Abuf → Type 0
Gets a =
    ((c : ℕ) × (a' : Abuf) × GotChar a c a')
    ⊎ (((a' : Abuf) × GotEof a a') ⊎ ((a' : Abuf) × GotWait a a'))
