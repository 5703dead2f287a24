-- ===== src/Escape/Tests.antt =====
-- Runs of the escaping, and the theorems at concrete texts.
use okws.Prelude.{
  ◌+◌, ◌≤◌, ◌≡◌, refl, arith, true, false, none, some, Bytes, ◌∷◌, ◌++◌, codes, length, All,
}
use okws.Escape.Xss.{IsInert, xss_escape-IsInert, xss_escape_bounds}
use okws.Escape.Filter.{run_filter}
use okws.Escape.Filter.Safe.{Filtered, run_filter-Filtered}
use okws.Escape.Filter.Quote.{run_filter_passes_tag}
use okws.Escape.{XssBuf, xss_init, xss_escape, htmlspecialchars, json_escape_std}

abbrev page : Bytes
page = codes "a<b>&'c'"

xss_page : (xss_escape xss_init page).0.out ≡ codes "a&lt;b&gt;&#38;&#39;c&#39;"
unfolding xss_escape
xss_page = refl

xss_escape-IsInert_example : All IsInert (xss_escape xss_init page).0.out
xss_escape-IsInert_example = xss_escape-IsInert xss_init page

xss_escape_bounds_example :
    (length (xss_escape xss_init page).0.out ≤ (xss_escape xss_init page).1.buflen)
    × ((xss_escape xss_init page).0.reach ≤ (xss_escape xss_init page).1.buflen + 1)
xss_escape_bounds_example = xss_escape_bounds xss_init page

-- The buffer as the first call with a short text leaves it.
abbrev first : XssBuf
first = record { allocated = true; buflen = 0x1000 }

html_page : htmlspecialchars page ≡ codes "a&lt;b&gt;&amp;&#039;c&#039;"
unfolding htmlspecialchars
html_page = refl

json_line : json_escape_std (codes "a\"b\\\n") true ≡ codes "\"a\\\"b\\\\\\n\""
unfolding json_escape_std
json_line = refl

run_filter-Filtered_example : Filtered 20 (codes "a<b>&lt;&x;#")
run_filter-Filtered_example =
    run_filter-Filtered 20 (codes "a<b>&lt;&x;#") (omega arith) (omega arith)

run_filter_passes_tag_example :
    run_filter 20 (λ _. false) (b'"' ∷ b'<' ∷ codes "script>")
    ≡ some (codes "&quot;<" ++ codes "script>")
run_filter_passes_tag_example =
    run_filter_passes_tag 20 (λ _. false) (codes "script>")
      (refl, (refl, (refl, (refl, (refl, (refl, (refl, tt))))))) (omega arith)

run_filtered :
    run_filter 40 (λ _. false) (codes "a<b>&lt;&x;#") ≡ some (codes "a&lt;b>&lt;&amp;x;&#35;")
unfolding run_filter
run_filtered = refl

-- The text between the brackets has a negative length.
run_empty_tag : run_filter 9 (λ _. false) (codes "<>/") ≡ none
unfolding run_filter
run_empty_tag = refl
