-- ===== src/Http/Escape.antt =====
-- `cgi_html_escape` and the two scripts that are made with it (cgi_util.cpp of project 3).
pub mod Table
use nycu_np.Http.Boost.{Boost}
use nycu_np.Prelude.{ℕ, [], ◌++◌, Bytes, codes, to_string}

-- The replacements, one after the other.
unfoldable pub cgi_html_escape : Boost → Bytes → Bytes
cgi_html_escape b context =
    let amp = b.replace_all context (codes "&") (codes "&amp;") in
    let gt = b.replace_all amp (codes ">") (codes "&gt;") in
    let lt = b.replace_all gt (codes "<") (codes "&lt;") in
    let quot = b.replace_all lt (codes "\"") (codes "&quot;") in
    let apos = b.replace_all quot (codes "'") (codes "&apos;") in
    let line = b.replace_all apos (codes "\n") (codes "&NewLine;") in
    b.replace_all line (codes "\r") []

abbrev pub script_head : ℕ → Bytes
script_head session_id =
    codes "<script>document.getElementById('s" ++ to_string session_id ++ codes "').innerHTML += '"

unfoldable pub cgi_output_shell : Boost → Bytes → ℕ → Bytes
unfolding cgi_html_escape to_string
cgi_output_shell b content session_id =
    script_head session_id ++ cgi_html_escape b content ++ codes "';</script>"

unfoldable pub cgi_output_command : Boost → Bytes → ℕ → Bytes
unfolding cgi_html_escape to_string
cgi_output_command b content session_id =
    script_head session_id ++ codes "<b>" ++ cgi_html_escape b content ++ codes "</b>';</script>"
