-- ===== src/Cgi/Panel.antt =====
-- The panel's form: `generatePanel` of cgi_util.cpp of project 4, and the menus in it.
use nycu_np.Prelude.{ℕ, zero, suc, ◌+◌, List, [], ◌∷◌, ◌++◌, Bytes, codes, to_string}

abbrev pub html_content_type : Bytes
html_content_type = codes "Content-type: text/html\r\n\r\n"

-- The names of the files in the directory, sorted, as a parameter.
unfoldable pub generate_panel_test_case_menu : List Bytes → Bytes
generate_panel_test_case_menu [] = []
generate_panel_test_case_menu (t ∷ rest) =
    codes "<option value=\""
    ++ t
    ++ codes "\">"
    ++ t
    ++ codes "</option>"
    ++ generate_panel_test_case_menu rest

-- The hosts from `i` on, `n` of them.
host_menu_from : ℕ → ℕ → Bytes → Bytes
host_menu_from zero i domain = []
host_menu_from (suc n) i domain =
    let host = codes "nplinux" ++ to_string (i + 1) in
    codes "<option value=\""
    ++ host
    ++ codes "."
    ++ domain
    ++ codes "\">"
    ++ host
    ++ codes "</option>"
    ++ host_menu_from n (i + 1) domain

unfoldable pub generate_panel_host_menu : ℕ → Bytes → Bytes
unfolding host_menu_from
generate_panel_host_menu num_hosts domain = host_menu_from num_hosts 0 domain

abbrev panel_head : Bytes
panel_head =
    codes "\n"
    ++ codes "<!DOCTYPE html>\n"
    ++ codes "<html lang=\"en\">\n"
    ++ codes "  <head>\n"
    ++ codes "    <title>NP Project 3 Panel</title>\n"
    ++ codes "    <link\n"
    ++ codes "      rel=\"stylesheet\"\n"
    ++ codes
        "      href=\"https://cdn.jsdelivr.net/npm/bootstrap@4.5.3/dist/css/bootstrap.min.css\"\n"
    ++ codes
        "      integrity=\"sha384-TX8t27EcRE3e/ihU7zmQxVncDAy5uIKz4rEkgIXeMed4M0jlfIDPvg6uqKI2xXr2\"\n"
    ++ codes "      crossorigin=\"anonymous\"\n"
    ++ codes "    />\n"
    ++ codes "    <link\n"
    ++ codes "      href=\"https://fonts.googleapis.com/css?family=Source+Code+Pro\"\n"
    ++ codes "      rel=\"stylesheet\"\n"
    ++ codes "    />\n"
    ++ codes "    <link\n"
    ++ codes "      rel=\"icon\"\n"
    ++ codes "      type=\"image/png\"\n"
    ++ codes
        "      href=\"https://cdn4.iconfinder.com/data/icons/iconsimple-setting-time/512/dashboard-512.png\"\n"
    ++ codes "    />\n"
    ++ codes "    <style>\n"
    ++ codes "      * {\n"
    ++ codes "        font-family: 'Source Code Pro', monospace;\n"
    ++ codes "      }\n"
    ++ codes "    </style>\n"
    ++ codes "  </head>\n"
    ++ codes "  <body class=\"bg-secondary pt-5\">"

abbrev panel_form : Bytes
panel_form =
    codes "\n"
    ++ codes "    <form action=\""
    ++ codes "console.cgi"
    ++ codes "\" method=\""
    ++ codes "GET"
    ++ codes "\">\n"
    ++ codes "      <table class=\"table mx-auto bg-light\" style=\"width: inherit\">\n"
    ++ codes "        <thead class=\"thead-dark\">\n"
    ++ codes "          <tr>\n"
    ++ codes "            <th scope=\"col\">#</th>\n"
    ++ codes "            <th scope=\"col\">Host</th>\n"
    ++ codes "            <th scope=\"col\">Port</th>\n"
    ++ codes "            <th scope=\"col\">Input File</th>\n"
    ++ codes "          </tr>\n"
    ++ codes "        </thead>\n"
    ++ codes "        <tbody>"

abbrev panel_row : Bytes → Bytes → ℕ → Bytes
panel_row host_menu test_case_menu i =
    codes "\n"
    ++ codes "          <tr>\n"
    ++ codes "            <th scope=\"row\" class=\"align-middle\">Session "
    ++ to_string (i + 1)
    ++ codes "</th>\n"
    ++ codes "            <td>\n"
    ++ codes "              <div class=\"input-group\">\n"
    ++ codes "                <select name=\"h"
    ++ to_string i
    ++ codes "\" class=\"custom-select\">\n"
    ++ codes "                  <option></option>"
    ++ host_menu
    ++ codes "\n"
    ++ codes "                </select>\n"
    ++ codes "                <div class=\"input-group-append\">\n"
    ++ codes "                  <span class=\"input-group-text\">.cs.nycu.edu.tw</span>\n"
    ++ codes "                </div>\n"
    ++ codes "              </div>\n"
    ++ codes "            </td>\n"
    ++ codes "            <td>\n"
    ++ codes "              <input name=\"p"
    ++ to_string i
    ++ codes "\" type=\"text\" class=\"form-control\" size=\"5\" />\n"
    ++ codes "            </td>\n"
    ++ codes "            <td>\n"
    ++ codes "              <select name=\"f"
    ++ to_string i
    ++ codes "\" class=\"custom-select\">\n"
    ++ codes "                <option></option>"
    ++ test_case_menu
    ++ codes "\n"
    ++ codes "              </select>\n"
    ++ codes "            </td>\n"
    ++ codes "          </tr>"

panel_rows : ℕ → ℕ → Bytes → Bytes → Bytes
panel_rows zero i host_menu test_case_menu = []
panel_rows (suc n) i host_menu test_case_menu =
    panel_row host_menu test_case_menu i ++ panel_rows n (i + 1) host_menu test_case_menu

abbrev panel_foot : Bytes
panel_foot =
    codes "\n"
    ++ codes "          <tr>\n"
    ++ codes "            <td colspan=\"3\"></td>\n"
    ++ codes "            <td>\n"
    ++ codes "              <button type=\"submit\" class=\"btn btn-info btn-block\">Run</button>\n"
    ++ codes "            </td>\n"
    ++ codes "          </tr>\n"
    ++ codes "        </tbody>\n"
    ++ codes "      </table>\n"
    ++ codes "    </form>\n"
    ++ codes "  </body>\n"
    ++ codes "</html>"

-- Five sessions, and twelve hosts to choose from.
unfoldable pub generate_panel : List Bytes → Bytes
unfolding generate_panel_test_case_menu generate_panel_host_menu panel_rows
generate_panel test_cases =
    html_content_type
    ++ panel_head
    ++ panel_form
    ++ panel_rows 5 0 (generate_panel_host_menu 12 (codes "cs.nycu.edu.tw"))
        (generate_panel_test_case_menu test_cases)
    ++ panel_foot
