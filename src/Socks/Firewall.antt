-- ===== src/Socks/Firewall.antt =====
-- The rules file: `matchFirewallRule` of socks4_util.cpp and `isDestinationIPAddressAllowed` of
-- socks4_handler.cpp.
pub mod Rules
use nycu_np.Prelude.{
  ℕ, zero, suc, ◌+◌, Bool, true, false, not, ◌&&◌, ◌||◌, if◌then◌else◌, ◌==◌, List, [], ◌∷◌, Option,
  none, some, Bytes, length,
}
use nycu_np.Shell.Stream.{Stream, read_word, drop_spaces}
use nycu_np.Socks.Pattern.Glob.{verdict}

-- `none` where the rule does not convert to a pattern that is modelled.
unfoldable pub match_firewall_rule : ℕ → Bytes → Bool → Bytes → Option Bool
unfolding verdict
match_firewall_rule operation rule socks4_command dst_ip =
    let config_command = operation == b'c' in
    if (socks4_command && config_command) || (not socks4_command && not config_command)
    then verdict rule dst_ip
    else some false

unfoldable pub take_char : Bytes → Stream × Option ℕ
take_char [] = (record { rest = []; failed = true }, none)
take_char (c ∷ cs) = (record { rest = cs; failed = false }, some c)

-- `ifs >> c` for a `char`.
unfoldable pub read_char : Stream → Stream × Option ℕ
unfolding take_char drop_spaces
read_char s = if s.failed then (s, none) else take_char (drop_spaces s.rest)

abbrev pub entry : Option ℕ → Option Bytes → Option (ℕ × Bytes)
entry (some type) (some rule) = some (type, rule)
entry _ _ = none

-- `ifs >> permit >> type >> rule`, where nothing looks at `permit`.
unfoldable pub read_entry : Stream → Stream × Option (ℕ × Bytes)
unfolding read_word read_char
read_entry s =
    let (s₁, permit) = read_word s in
    let (s₂, type) = read_char s₁ in let (s₃, rule) = read_word s₂ in (s₃, entry type rule)

-- `return true` at the first rule that matches.
abbrev pub or_later : Option Bool → Option Bool → Option Bool
or_later none later = none
or_later (some true) later = some true
or_later (some false) later = later

abbrev pub try_entry :
    (Stream → Option Bool) → Bytes → Bool → Stream × Option (ℕ × Bytes) → Option Bool
try_entry go ip command (s, none) = some false
try_entry go ip command (s, some (type, rule)) =
    or_later (match_firewall_rule type rule command ip) (go s)

unfoldable pub rules_loop : ℕ → Bytes → Bool → Stream → Option Bool
unfolding read_entry match_firewall_rule
rules_loop zero ip command s = none
rules_loop (suc fuel) ip command s =
    try_entry (rules_loop fuel ip command) ip command (read_entry s)

-- The file as a parameter: `none` where it cannot be opened. Fuel above its length is enough,
-- since each entry takes a byte.
unfoldable pub is_destination_ip_address_allowed : Option Bytes → Bytes → Bool → Option Bool
unfolding rules_loop
is_destination_ip_address_allowed none ip command = some false
is_destination_ip_address_allowed (some conf) ip command =
    rules_loop (suc (length conf)) ip command (record { rest = conf; failed = false })
