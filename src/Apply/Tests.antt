-- ===== src/Apply/Tests.antt =====
-- The client with a runner that always succeeds and counts, and with a hostile config.
use mpris_chroma.Prelude.{◌≡◌, refl, some, List, [], ◌∷◌}
use mpris_chroma.Prelude.Text.{Str, codes, decimal}
use mpris_chroma.Prelude.Int.{pos}
use mpris_chroma.Prelude.Result.{ok}
use mpris_chroma.Worker.{Colors, done}
use mpris_chroma.Apply.{
  CtlWorld, Ctl, text, fade_default, valid_hex, config_palette, run, apply, revert,
}
use mpris_chroma.Apply.Argv.{tokens_only, ctl-tokens_only}

-- The world is the list of argvs run so far, the last one first.
abbrev recorder : CtlWorld (List (List Str))
recorder = record {
  run = λ argv limit w. (argv ∷ w, ok (record { code = some (pos 0); stderr = [] }));
  palette_at = λ path w.
      some (text (codes "#112233\nstop") ∷ text (codes "#445566") ∷ text (codes "#778899") ∷ []);
  code_text = λ code. [];
  palette_text = λ colors. [];
}

abbrev client : Ctl
client = record {
  program = codes "wlchroma-ctl";
  config_path = codes "/config.toml";
  fade_ms = fade_default;
}

abbrev three : Colors
three = (codes "#112233", codes "#AABBCC", codes "#00ff00")

applied : apply recorder client three [] ≡ (
  ((codes "wlchroma-ctl"
        ∷ codes "set-colors"
        ∷ codes "#112233"
        ∷ codes "#AABBCC"
        ∷ codes "#00ff00"
        ∷ codes "2000"
        ∷ [])
      ∷ []),
  done,
)
unfolding apply valid_hex run decimal
applied = refl

-- A newline in the config's palette: the named preset is used.
hostile_config :
    revert recorder client []
    ≡ (((codes "wlchroma-ctl" ∷ codes "set-palette" ∷ codes "witch_hour" ∷ []) ∷ []), done)
unfolding revert config_palette valid_hex run
hostile_config = refl

ctl-tokens_only_example :
    (apply (tokens_only recorder) client three [] ≡ apply recorder client three [])
    × (revert (tokens_only recorder) client [] ≡ revert recorder client [])
ctl-tokens_only_example = ctl-tokens_only recorder client three []
