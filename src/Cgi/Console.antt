-- ===== src/Cgi/Console.antt =====
-- The console's table: `generateHTTPNPShellWebConsole` of cgi_util.cpp of project 4.
use nycu_np.Prelude.{
  ℕ, ◌+◌, List, [], ◌∷◌, ◌++◌, Option, none, some, Bytes, codes, length, drop, to_string, Bool,
  true, false, ◌&&◌, ◌==◌, if◌then◌else◌,
}
use nycu_np.Cgi.Panel.{html_content_type}

pub record ServerInfo : Type 0 where
  pub host : Bytes
  pub port : Bytes
  pub file_name : Bytes

abbrev pub npshell_webconsole : Bytes
npshell_webconsole =
    codes "\n"
    ++ codes "<!DOCTYPE html>\n"
    ++ codes "<html lang=\"en\">\n"
    ++ codes "  <head>\n"
    ++ codes "    <meta charset=\"UTF-8\" />\n"
    ++ codes "    <title>NP Project 3 Sample Console</title>\n"
    ++ codes "    <link\n"
    ++ codes "      rel=\"stylesheet\"\n"
    ++ codes
        "      href=\"https://cdn.jsdelivr.net/npm/bootstrap@4.5.3/dist/css/bootstrap.min.css\"\n"
    ++ codes
        "      integrity=\"sha384-TX8t27EcRE3e/ihU7zmQxVncDAy5uIKz4rEkgIXeMed4M0jlfIDPvg6uqKI2xXr2\"\n"
    ++ codes "      crossorigin=\"anonymous\"\n"
    ++ codes "    />\n"
    ++ codes "    <link\n"
    ++ codes "      href=\"https://fonts.googleapis.com/css?family=Source+Code+Pro\"\n"
    ++ codes "      rel=\"stylesheet\"\n"
    ++ codes "    />\n"
    ++ codes "    <link\n"
    ++ codes "      rel=\"icon\"\n"
    ++ codes "      type=\"image/png\"\n"
    ++ codes
        "      href=\"https://cdn0.iconfinder.com/data/icons/small-n-flat/24/678068-terminal-512.png\"\n"
    ++ codes "    />\n"
    ++ codes "    <style>\n"
    ++ codes "      * {\n"
    ++ codes "        font-family: 'Source Code Pro', monospace;\n"
    ++ codes "        font-size: 1rem !important;\n"
    ++ codes "      }\n"
    ++ codes "      body {\n"
    ++ codes "        background-color: #212529;\n"
    ++ codes "      }\n"
    ++ codes "      pre {\n"
    ++ codes "        color: #cccccc;\n"
    ++ codes "      }\n"
    ++ codes "      b {\n"
    ++ codes "        color: #01b468;\n"
    ++ codes "      }\n"
    ++ codes "    </style>\n"
    ++ codes "  </head>\n"
    ++ codes "  <body>\n"
    ++ codes "    <table class=\"table table-dark table-bordered\">\n"
    ++ codes "      <thead>\n"
    ++ codes "        <tr>\n"
    ++ codes "          <th scope=\"col\"></th>\n"
    ++ codes "        </tr>\n"
    ++ codes "      </thead>\n"
    ++ codes "      <tbody>\n"
    ++ codes "        <tr>\n"
    ++ codes "          <td><pre id=\"s0\" class=\"mb-0\"></pre></td>\n"
    ++ codes "        </tr>\n"
    ++ codes "      </tbody>\n"
    ++ codes "    </table>\n"
    ++ codes "  </body>\n"
    ++ codes "</html>"

starts_with : Bytes → Bytes → Bool
starts_with [] s = true
starts_with (c ∷ t) [] = false
starts_with (c ∷ t) (d ∷ s) = c == d && starts_with t s

-- `base.find(marker)` and `base.replace(pos, strlen(marker), text)`.
replace_first : Bytes → Bytes → Bytes → Bytes
unfolding starts_with
replace_first marker text [] = []
replace_first marker text (c ∷ s) =
    let later = replace_first marker text s in
    if starts_with marker (c ∷ s) then text ++ drop (length marker) (c ∷ s) else c ∷ later

abbrev tag_break : Bytes
tag_break = codes "\r\n          "

abbrev th_tag : ServerInfo → Bytes
th_tag h = codes "<th scope=\"col\">" ++ h.host ++ codes ":" ++ h.port ++ codes "</th>"

th_tags : List ServerInfo → Bytes
th_tags [] = []
th_tags (h ∷ []) = th_tag h
th_tags (h ∷ next ∷ rest) = th_tag h ++ tag_break ++ th_tags (next ∷ rest)

abbrev td_tag : ℕ → Bytes
td_tag i = codes "<td><pre id=\"s" ++ to_string i ++ codes "\" class=\"mb-0\"></pre></td>"

td_tags : ℕ → List ServerInfo → Bytes
td_tags i [] = []
td_tags i (h ∷ []) = td_tag i
td_tags i (h ∷ next ∷ rest) = td_tag i ++ tag_break ++ td_tags (i + 1) (next ∷ rest)

abbrev pub or_default : Option Bytes → Bytes
or_default none = npshell_webconsole
or_default (some page) = page

-- The page's file as a parameter: `none` where it cannot be opened.
unfoldable pub generate_http_np_shell_web_console : Option Bytes → List ServerInfo → Bytes
unfolding replace_first th_tags td_tags
generate_http_np_shell_web_console file hosts =
    let head = replace_first (codes "<th scope=\"col\"></th>") (th_tags hosts) (or_default file) in
    html_content_type
    ++ replace_first (codes "<td><pre id=\"s0\" class=\"mb-0\"></pre></td>") (td_tags 0 hosts) head
