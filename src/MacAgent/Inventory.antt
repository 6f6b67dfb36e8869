-- ===== src/MacAgent/Inventory.antt =====
-- The operator's inventory, of apps/macos-agent/src/deckhand_macos/config.py: its dicts, and the shape of
-- a bundle identifier.
use Prim.Native.Char.{Char, code}
use Prim.Native.String.{[] as no_text, ◌∷◌ as ◌∷ᵗ◌}
use deckhand.Base.{
  ℕ, String, Bool, true, false, ◌&&◌, ◌||◌, Option, none, some, List, [], ◌∷◌, same, leb,
  if◌then◌else◌,
}

-- A dict, in the order of its keys.
abbrev pub Dict : Type 0 → Type 0
Dict V = List (String × V)

-- `mapping.get(alias)`
unfoldable pub find : {V : Type 0} → String → Dict V → Option V
find alias [] = none
find alias ((key, v) ∷ rest) = if same key alias then some v else find alias rest

pub record AppCommand : Type 0 where
  pub bundle_id : String
  pub keystroke : String

-- The connection's settings are the client's to use.
pub record ObsSettings : Type 0 where
  pub scenes : Dict String
  pub sources : Dict String

pub record MacInventory : Type 0 where
  pub apps : Dict String
  pub browser_sessions : Dict String
  pub shortcuts : Dict String
  pub audio_inputs : Dict String
  pub audio_outputs : Dict String
  pub focus_modes : Dict String
  pub pomodoro_routines : Dict String
  pub display_modes : Dict String
  pub workspaces : Dict String
  pub input_sources : Dict String
  pub app_commands : Dict AppCommand
  pub obs : ObsSettings

abbrev pub between : ℕ → ℕ → ℕ → Bool
between low high n = leb low n && leb n high

-- `[A-Za-z0-9.-]`
abbrev pub is_bundle_char : Char → Bool
is_bundle_char c =
    between 65 90 (code c)
    || between 97 122 (code c)
    || between 48 57 (code c)
    || between 45 46 (code c)

unfoldable pub all_bundle_chars : String → Bool
all_bundle_chars no_text = true
all_bundle_chars (c ∷ᵗ s) = is_bundle_char c && all_bundle_chars s

-- `re.fullmatch(r"[A-Za-z0-9.-]+", text)`
unfoldable pub is_bundle_id : String → Bool
unfolding all_bundle_chars
is_bundle_id no_text = false
is_bundle_id (c ∷ᵗ s) = is_bundle_char c && all_bundle_chars s
