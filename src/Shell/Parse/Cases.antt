-- ===== src/Shell/Parse/Cases.antt =====
-- The cases of one round of the parser's loop.
use nycu_np.Prelude.{Bool, true, false, if◌then◌else◌, Bytes, ℤ, ◌++◌, ◌∷◌, []}
use nycu_np.Shell.Command.{pipe_command}
use nycu_np.Shell.Parse.{
  Builtins, Parsing, add_pair, interpret, parse_printenv, parse_setenv, parse_tell, parse_yell,
  parse_name, parse_file, parse_numbered, parse_write, parse_read,
}

pub if_rule {ℓ κ} :
    {A : Type ℓ} (P : A → Type κ) (b : Bool) {x y : A} → P x → P y → P (if b then x else y)
if_rule P true h k = h
if_rule P false h k = k

-- What holds of the outcome of every kind of word holds of the round.
module _ {H : Type 0} (b : Builtins H) (uninit : ℤ) where
  pub interpret-cases {ℓ} :
      (P : Parsing H → Type ℓ) (word : Bytes) (s : Parsing H)
      → P (record s { host = b.exit s.host })
      → P (parse_printenv b uninit s)
      → P (parse_setenv b uninit s)
      → P (record s { host = b.who s.host })
      → P (parse_tell b uninit s)
      → P (parse_yell b uninit s)
      → P (parse_name b uninit s)
      → P (add_pair b uninit pipe_command s)
      → P (parse_file b uninit s)
      → P (parse_numbered b uninit word s)
      → P (parse_write b uninit word s)
      → P (parse_read b uninit word s)
      → P (record s { argv = s.argv ++ word ∷ [] })
      → P (interpret b uninit word s)
  unfolding interpret
  interpret-cases P word s h₁ h₂ h₃ h₄ h₅ h₆ h₇ h₈ h₉ h₁₀ h₁₁ h₁₂ h₁₃ = if_rule P _ h₁ (
      if_rule P _ h₂ (
        if_rule P _ h₃ (
          if_rule P _ h₄ (
            if_rule P _ h₅ (
              if_rule P _ h₆ (
                if_rule P _ h₇ (
                  if_rule P _ h₈ (
                    if_rule P _ h₉ (if_rule P _ h₁₀ (if_rule P _ h₁₁ (if_rule P _ h₁₂ h₁₃)))))))))))
