-- ===== src/Mpfd/Contdisp/Rounds.antt =====
-- How many rounds a content disposition takes.
use okws.Prelude.{ℕ, ◌<◌, ◌≡◌, Bool, true, ◌&&◌, Option, none, some}
use okws.Abuf.{AbufStat, Abuf, is_ok}
use okws.Hdr.{Hdr}
use okws.Mpfd.Contdisp.{
  Contdisp, ContdispState, start, sep1, name_key, name_val, sep2a, sep2b, sep2c, filename_key,
  filename_val, past, inc_state,
}

-- The rounds that are left.
abbrev rank : ContdispState → ℕ
rank start = 9
rank sep1 = 8
rank name_key = 7
rank name_val = 6
rank sep2a = 5
rank sep2b = 4
rank sep2c = 3
rank filename_key = 2
rank filename_val = 1
rank past = 0

-- The next state is a later one, and the loop is not behind the last.
abbrev IsLater : ℕ → ContdispState → Type 0
IsLater n q = (0 < rank (inc_state q)) × (rank (inc_state q) < n)

abbrev Advances : ℕ → Option (AbufStat × Bool × Contdisp) → Type 0
Advances n none = Unit
Advances n (some (r, flag, c)) = is_ok r && flag ≡ true → IsLater n c.state
