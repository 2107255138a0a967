-- ===== src/Cgi/Escape.antt =====
-- The scripts that put a shell's output and a user's command on the page.
pub mod Safe
use nycu_np.Prelude.{
  ℕ, ◌-◌, Bool, if◌then◌else◌, ltb, List, [], ◌∷◌, ◌++◌, Bytes, codes, to_string, is_alnum,
}

-- `static_cast<int>(c)` of a `char`, which is signed.
abbrev pub char_text : ℕ → Bytes
char_text c = if ltb c 128 then to_string c else b'-' ∷ to_string (256 - c)

unfoldable pub print_escape : Bytes → Bytes
unfolding is_alnum
print_escape [] = []
print_escape (c ∷ content) =
    (if is_alnum c then c ∷ [] else codes "&#" ++ char_text c ++ codes ";") ++ print_escape content

pub record ClientInfo : Type 0 where
  pub session_id : ℕ
  pub user_command : Bytes
  pub shell_output : Bytes

abbrev pub script_head : ℕ → Bytes
script_head session_id =
    codes "<script>document.getElementById('s" ++ to_string session_id ++ codes "').innerHTML += '"

unfoldable pub output_command : ClientInfo → Bytes
unfolding print_escape
output_command client =
    script_head client.session_id
    ++ codes "<b>"
    ++ print_escape client.user_command
    ++ codes "</b>';</script>\n"

unfoldable pub output_shell : ClientInfo → Bytes
unfolding print_escape
output_shell client =
    script_head client.session_id ++ print_escape client.shell_output ++ codes "';</script>\n"
