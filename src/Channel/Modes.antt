-- ===== src/Channel/Modes.antt =====
-- The modes of src/channel/mode.rs as a map.
use clandestine.Prelude.{
  String, Char, Bool, true, false, Option, none, some, ◌≡◌, arith, if◌then◌else◌,
}
use clandestine.Prelude.Assoc
use clandestine.Prelude.Assoc.{is_some, get-insert, get-remove}
use clandestine.Prelude.Set.{
  Distinct, contains-insert, contains-remove, insert-Distinct, remove-Distinct,
}
use clandestine.Prelude.Eq.{◌==◌, char_eq, string_eq}
use clandestine.Channel.{Channel, has_mode, set_mode}

-- No mode stands twice, and a mode with a parameter is set.
pub record ModesFit (ch : Channel) : Type 0 where
  pub distinct : Distinct ch.modes
  pub set : (c : Char) → (is_some (Assoc.get c ch.mode_params)) ≡ true → has_mode c none ch ≡ true

-- What `has_mode` answers for a mode with a parameter after `set_mode`.
abbrev pub param_after : Option String → Bool → String → Bool → Bool
param_after param false text before = false
param_after none true text before = before
param_after (some p) true text before = p == text

-- After `set_mode` the mode is set exactly if it was added, a parameter that was given is the one that the
-- mode has, a mode that is taken away has none, and every other mode is as before; and the modes still
-- fit together.
pub set_mode-ModesFit :
    (c : Char) (param : Option String) (adding : Bool) (ch : Channel)
    → ModesFit ch
    → ModesFit (set_mode c param adding ch)
      × ((d : Char)
          → has_mode d none (set_mode c param adding ch)
            ≡ (if c == d then adding else has_mode d none ch))
      × ((d : Char) (text : String)
          → has_mode d (some text) (set_mode c param adding ch) ≡ (
              if c == d
              then param_after param adding text (has_mode d (some text) ch)
              else has_mode d (some text) ch))
unfolding set_mode has_mode
set_mode-ModesFit c none true ch h = (
  record {
    distinct = insert-Distinct c ch.modes h.distinct;
    set = λ d e. ground (arith, contains-insert c d ch.modes, h.set d);
  },
  λ d. ground (arith, contains-insert c d ch.modes),
  λ d text. ground arith,
)
set_mode-ModesFit c (some p) true ch h = (
  record {
    distinct = insert-Distinct c ch.modes h.distinct;
    set = λ d e.
        ground (arith, contains-insert c d ch.modes, get-insert c d p ch.mode_params, h.set d);
  },
  λ d. ground (arith, contains-insert c d ch.modes),
  λ d text. ground (arith, get-insert c d p ch.mode_params),
)
set_mode-ModesFit c param false ch h = (
  record {
    distinct = remove-Distinct c ch.modes h.distinct;
    set =
        λ d e. ground (arith, contains-remove c d ch.modes, get-remove c d ch.mode_params, h.set d);
  },
  λ d. ground (arith, contains-remove c d ch.modes),
  λ d text. ground (arith, get-remove c d ch.mode_params),
)
